-- ===== src/Benchmarks/Luminal/Owing.antt =====
-- This runtime keeps what it owes to the benchmarks of src/main.rs, while its workers do nothing.
use mathlib.Core.Path.{subst}
use luminal.Prelude.{
  ℕ, ◌-◌, ◌≡◌, ◌≢◌, ◌∙◌, refl, sym, ap, List, [], ◌∷◌, ◌++◌, length, arith, update_self,
}
use luminal.Crossbeam.{Crossbeam, Steal}
use luminal.Task.{JoinHandle, value, joins, Task}
use luminal.World.{World}
use luminal.Executor
use luminal.Executor.{spawn_internal}
use luminal.Executor.BlockOn.Counting.{block_on-tasks_processed}
use luminal.Executor.BlockOn.Handles.Waits.{Owed}
use luminal.Executor.BlockOn.Handles.{spawn-Owed, block_on-Owed}
use luminal.Executor.BlockOn.Handles.Standing.{Entry}
use luminal.Runtime
use luminal.Runtime.{Runtime, Process, Cell}
use luminal.Benchmarks.Totals.{Reliable}
use luminal.Benchmarks.Luminal.{on_luminal}

module _ (X : Crossbeam (Task ℕ) ℕ) where
  abbrev pub entries : List (JoinHandle × ℕ) → List (Entry X)
  entries [] = []
  entries ((j, v) ∷ l) = (j.receiver, v) ∷ entries l

  entries-snoc :
      (l : List (JoinHandle × ℕ)) (j : JoinHandle) (v : ℕ)
      → entries (l ++ (j, v) ∷ []) ≡ entries l ++ (j.receiver, v) ∷ []
  entries-snoc [] j v = refl
  entries-snoc ((i, u) ∷ l) j v = ap (λ r. (i.receiver, u) ∷ r) (entries-snoc l j v)

  pub length-entries : (l : List (JoinHandle × ℕ)) → length (entries l) ≡ length l
  length-entries [] = refl
  length-entries ((i, u) ∷ l) = omega (arith, length-entries l)

  -- The executor of the runtime owes these results, and its workers have done nothing.
  abbrev pub Owes : List (JoinHandle × ℕ) → World X → Type 0
  Owes l w = (Owed X (entries l) w) × (w.tasks_processed ≡ 0)

  pub stored :
      (p : Process X) (e : ℕ) (w : World X) (P : World X → Type 0)
      → P w
      → P ((Runtime.with_world X p e w).cells e).world
  stored p e w P h =
      subst (λ (c : Cell X). P c.world)
        (sym (update_self p.cells e (record (p.cells e) { world = w }))) h

  pub spawn-Owes :
      (v : ℕ) (l : List (JoinHandle × ℕ)) (w : World X)
      → Owes l w
      → Owes (l ++ ((Executor.spawn X (value v) w).0, v) ∷ []) (Executor.spawn X (value v) w).1
  unfolding Executor.spawn spawn_internal
  spawn-Owes v l w (o, z) = (
    subst (λ r. Owed X r (Executor.spawn X (value v) w).1) (sym (entries-snoc l _ v))
        (spawn-Owed X v (entries l) w o),
    z,
  )

  module _ (calm : (q : X.Injector) → (X.steal q).0 ≢ Steal.retry) (fuel : ℕ) (rt : Runtime) where
    -- Enough fuel is 2 more than the handles at any time.
    unfoldable pub on_luminal-Reliable : Reliable (on_luminal X (λ d w. w) fuel rt) (fuel - 2)
    unfolding Runtime.spawn Runtime.block_on
    on_luminal-Reliable = record {
      Accepts = λ v f. f ≡ value v;
      Owed = λ l p. Owes l (p.cells rt.executor).world;
      spawn_owed = λ v f l p e o. rw e (
          stored p rt.executor _ (Owes (l ++ ((Executor.spawn X (value v) _).0, v) ∷ []))
            (spawn-Owes v l (p.cells rt.executor).world o));
      wait_owed = λ j v l p lt (o, z).
          let w = (p.cells rt.executor).world in
          let (e, left) =
            block_on-Owed X calm fuel j v (entries l) w o (omega (arith, length-entries l)) in
          (
            e,
            stored p rt.executor _ (Owes l) (
              left,
              block_on-tasks_processed X (λ d u. u) (λ i n u h. h) fuel (joins j value) w ∙ z,
            ),
          );
    }
