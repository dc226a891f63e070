-- ===== src/Executor/BlockOn/Liveness.antt =====
-- `block_on` of src/runtime/executor.rs returns by its own help, if the tasks in the global queue come
-- to an end.
pub mod Storage
pub mod Rounds
use mathlib.Core.Path.{subst}
use luminal.Prelude.{
  ℕ, zero, suc, ◌+◌, ◌-◌, ◌≤◌, ◌<◌, ◌≡◌, ◌≢◌, ◌∙◌, ◌⊎◌, inl, inr, refl, sym, ap, Bool, true, false,
  List, [], ◌∷◌, update, arith,
}
use luminal.Crossbeam.{Crossbeam, Steal, TryRecv, Receives}
use luminal.Task.{JoinHandle, Future, Task}
use luminal.Task.Poll.{Outcome, returned, panicked}
use luminal.Task.Finite.{Costs, ListCosts, Gives}
use luminal.Task.Senders.{Others}
use luminal.Task.Progress.{Store}
use luminal.Task.Progress.Rounds.{Ending, Ending-cases, spawned-Ending}
use luminal.World.{World}
use luminal.Worker.{Loop, ends}
use luminal.Executor.{spawn}
use luminal.Executor.BlockOn.{helped_turn, turn_on, turn, after_turn, wait_for, block_on, help}
use luminal.Executor.BlockOn.Liveness.Storage.{store, Silent, placed}
use luminal.Executor.BlockOn.Liveness.Rounds.{Ends, help-progress}

module _ {V : Type 0} (X : Crossbeam (Task V) V) where
  -- A result in the channel ends the loop.
  pub receive-first :
      (r : TryRecv V) (src : List V) (b : Bool) (src' : List V) (v : V) (i : ℕ) (w : World X)
      → Receives r src b src'
      → src ≡ v ∷ []
      → (rest : ℕ → World X → Loop V × World X) → (after_turn X (turn_on X r i w) rest).0 ≡ ends v
  receive-first (TryRecv.ok u) src b src' v i w e s rest = cc
  receive-first TryRecv.empty src b src' v i w e s rest = cc
  receive-first TryRecv.disconnected src b src' v i w e s rest = cc

  pub receive-none :
      (r : TryRecv V) (src : List V) (b : Bool) (src' : List V)
      → Receives r src b src'
      → src ≡ []
      → b ≡ true
      → (r ≡ TryRecv.empty) × (src' ≡ [])
  receive-none (TryRecv.ok u) src b src' e s l = cc
  receive-none TryRecv.empty src b src' (e, l', e') s l = (refl, e')
  receive-none TryRecv.disconnected src b src' (e, l', e') s l = cc

  helped_turn-ends :
      (n c i : ℕ) (v : V) (r : Outcome Bool × World X) (rest : ℕ → World X → Loop V × World X)
      → ((i' : ℕ) (u : World X) → Ending (store X) n c v u → (rest i' u).0 ≡ ends v)
      → Ends X n c v r
      → (after_turn X (helped_turn X i r) rest).0 ≡ ends v
  helped_turn-ends n c i v (returned b, w) rest next p = next _ w p
  helped_turn-ends n c i v (panicked, w) rest next p = absurd p

  module _ (calm : (q : X.Injector) → (X.steal q).0 ≢ Steal.retry) where
    turn-ends :
        (n i : ℕ) (v : V) (j : JoinHandle) (w : World X) (rest : ℕ → World X → Loop V × World X)
        → (1 ≤ n
            → (i' : ℕ) (u : World X) → Ending (store X) (n - 1) j.receiver v u
            → (rest i' u).0 ≡ ends v)
        → Ending (store X) n j.receiver v w
        → (after_turn X (turn X j i w) rest).0 ≡ ends v
    unfolding turn store
    turn-ends n i v j w rest next p = elim (Ending-cases (store X) n j.receiver v w p) [
      | inl there ↦ receive-first _ _ _ _ v i _ (X.try_recv_lem (w.channels j.receiver)) there rest
      | inr (pos, silent, looked) ↦
          let got = X.try_recv (w.channels j.receiver) in
          let u : World X = record w { channels = update w.channels j.receiver got.1 } in
          let (e, s) =
            receive-none _ _ _ _ (X.try_recv_lem (w.channels j.receiver)) silent.0 silent.1 in
          let quiet : Silent X got.1 = (s, X.live-try_recv (w.channels j.receiver) ∙ silent.1) in
          subst (λ r. (after_turn X (turn_on X r i u) rest).0 ≡ ends v) (sym e)
            (helped_turn-ends (n - 1) j.receiver i v (help X 4 false u) rest (next pos) (
              help-progress X calm 3 n j.receiver v false u
                (looked u refl refl (placed X (Silent X) w.channels j.receiver got.1 quiet))))
    ]

    wait_for-ends :
        (k n i : ℕ) (v : V) (j : JoinHandle) (w : World X)
        → n < k
        → Ending (store X) n j.receiver v w
        → (wait_for X (λ l u. u) k j i w).0 ≡ ends v
    unfolding wait_for
    wait_for-ends zero n i v j w h p = absurd (omega arith)
    wait_for-ends (suc k) n i v j w h p =
        turn-ends n i v j w (wait_for X (λ l u. u) k j)
          (λ pos i' u. wait_for-ends k (n - 1) i' v j u (omega arith)) p

    -- The thread that blocks on a future gets its result by its own help, while the other threads
    -- do nothing. The future gives `v` and awaits nothing. `a` polls end it and all tasks that it
    -- spawns, directly or not, together; these are `b` at most, and none of them awaits a handle or
    -- panics. The tasks that wait in the global queue, with what they spawn, end likewise in `n`
    -- polls, and none of them holds the sender of the channel that comes next; and no steal of a
    -- single task loses a race. Then `a + n + 1` turns of the loop in `block_on` are enough.
    pub block_on-alone :
        (k a b n m : ℕ) (f : Future V) (v : V) (w : World X)
        → Costs a b f
        → Gives v f
        → ListCosts n m (X.items w.global_queue)
        → Others w.next_channel (X.items w.global_queue)
        → a + n < k
        → (block_on X (λ l u. u) k f w).0 ≡ ends v
    unfolding block_on spawn store
    block_on-alone k a b n m f v w c g q others fuel =
        wait_for-ends k (a + n) 0 v _ _ fuel
          (spawned-Ending (store X) a b n m f v w c g q tt others)
