-- ===== src/Simple/Liveness.antt =====
-- `block_on` of src/runtime/simple_executor.rs returns, if its task queue does not overflow and the
-- tasks in it come to an end.
pub mod Storage
pub mod Rounds
use luminal.Prelude.{
  ℕ, zero, suc, ◌+◌, ◌-◌, ◌≤◌, ◌<◌, ◌≡◌, ◌∙◌, inl, inr, refl, ap, Option, none, some, List, [], ◌∷◌,
  All, length, update, update_self, arith, ◌⊎◌,
}
use luminal.Crossbeam.{Pops}
use luminal.Task.{JoinHandle, Future, Task}
use luminal.Task.Poll.{Outcome, returned, panicked}
use luminal.Task.Finite.{Costs, ListCosts, Gives}
use luminal.Task.Senders.{Foreign}
use luminal.Task.Progress.{Store}
use luminal.Task.Progress.Rounds.{Ending, Ending-cases, spawned-Ending}
use luminal.Worker.{Loop, ends}
use luminal.Heapless.{Heapless}
use luminal.Simple.{SimpleExecutor, spawn, check, checked, wait_for, block_on}
use luminal.Simple.Liveness.Storage.{store}
use luminal.Simple.Liveness.Rounds.{Ends, process-progress}

module _ {V : Type 0} (H : Heapless (Task V) V 1024 16) where
  -- The check of the result queue: the result ends the loop.
  check-first :
      (o : Option V) (src src' : List V) (v : V) (w : SimpleExecutor H)
      → Pops o src src'
      → src ≡ v ∷ []
      → (rest : SimpleExecutor H → Loop V × SimpleExecutor H) → (check H o w rest).0 ≡ ends v
  check-first none src src' v w e h rest = cc
  check-first (some u) src src' v w e h rest = cc

  check-none :
      (o : Option V) (src src' : List V) (w : SimpleExecutor H)
      → Pops o src src'
      → src ≡ []
      → (rest : SimpleExecutor H → Loop V × SimpleExecutor H)
      → (check H o w rest ≡ rest w) × (src' ≡ [])
  check-none none src src' w e h rest = (refl, e.1)
  check-none (some u) src src' w e h rest = cc

  check-ends :
      (n : ℕ) (v : V) (j : JoinHandle) (w : SimpleExecutor H)
      → (rest : SimpleExecutor H → Loop V × SimpleExecutor H)
      → (1 ≤ n → (u : SimpleExecutor H) → Ending (store H) n j.receiver v u → (rest u).0 ≡ ends v)
      → Ending (store H) n j.receiver v w
      → (checked H j (returned tt, w) rest).0 ≡ ends v
  unfolding store
  check-ends n v j w rest next p = elim (Ending-cases (store H) n j.receiver v w p) [
    | inl there ↦ check-first _ _ _ v _ (H.dequeue_lem (w.results j.receiver)) there rest
    | inr (pos, none_yet, looked) ↦
        let popped = H.dequeue (w.results j.receiver) in
        let u = record w { results = update w.results j.receiver popped.1 } in
        let (e, s) = check-none _ _ _ u (H.dequeue_lem (w.results j.receiver)) none_yet rest in
        ap (λ r. r.0) e
        ∙ next pos u (looked u refl refl (ap H.stored (update_self w.results j.receiver _) ∙ s))
  ]

  checked-ends :
      (n : ℕ) (v : V) (j : JoinHandle) (r : Outcome (Unit {0}) × SimpleExecutor H)
      → (rest : SimpleExecutor H → Loop V × SimpleExecutor H)
      → (1 ≤ n → (u : SimpleExecutor H) → Ending (store H) n j.receiver v u → (rest u).0 ≡ ends v)
      → Ends H n j.receiver v r
      → (checked H j r rest).0 ≡ ends v
  checked-ends n v j (returned _, w) rest next p = check-ends n v j w rest next p
  checked-ends n v j (panicked, w) rest next p = absurd p

  wait_for-ends :
      (k n : ℕ) (v : V) (j : JoinHandle) (w : SimpleExecutor H)
      → n < k
      → Ending (store H) n j.receiver v w
      → (wait_for H k j w).0 ≡ ends v
  unfolding wait_for
  wait_for-ends zero n v j w h p = absurd (omega arith)
  wait_for-ends (suc k) n v j w h p =
      checked-ends (n - 1) v j _ (wait_for H k j)
        (λ pos u. wait_for-ends k (n - 1) v j u (omega arith))
        (process-progress H 9 n j.receiver v w p)

  -- `block_on` returns the result of its future. The future gives `v` and awaits nothing. `a` polls
  -- end it and all tasks that it spawns, directly or not, together; these are `b` at most, and none
  -- of them awaits a handle or panics. The tasks that are queued before end likewise, in `n` polls,
  -- and spawn at most `m`; all of these fit the task queue together; and no queued task holds the
  -- sender of the result queue that comes next. Then `a + n + 1` turns of the busy loop are enough.
  pub block_on-ends :
      (k a b n m : ℕ) (f : Future V) (v : V) (w : SimpleExecutor H)
      → Costs a b f
      → Gives v f
      → ListCosts n m (H.entries w.global_queue)
      → length (H.entries w.global_queue) + (b + m) < 1024
      → All (λ t. Foreign w.next_result t.future) (H.entries w.global_queue)
      → a + n < k
      → (block_on H k f w).0 ≡ ends v
  unfolding block_on spawn store
  block_on-ends k a b n m f v w c g q room others fuel =
      wait_for-ends k (a + n) v _ _ fuel
        (spawned-Ending (store H) a b n m f v w c g q (omega arith) others)
