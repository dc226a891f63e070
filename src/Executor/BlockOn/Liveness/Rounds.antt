-- ===== src/Executor/BlockOn/Liveness/Rounds.antt =====
-- The help of a thread in `block_on` (src/runtime/executor.rs), when all tasks come to an end.
use luminal.Prelude.{[], ℕ, zero, suc, ◌+◌, ◌-◌, ◌≤◌, ◌≢◌, refl, Bool, true, arith}
use luminal.Crossbeam.{Crossbeam, Steal, Takes}
use luminal.Task.{BoxFuture, Task}
use luminal.Task.Poll.{Poll, ready, pending, Outcome, returned, panicked, poll_box, poll}
use luminal.Task.Finite.{BoxCosts, ListCosts}
use luminal.Task.Progress.Settles.{Leaves, Mode, poll_box-Leaves}
use luminal.Task.Progress.Rounds.{
  Ending, Ending-mono, emptied-Ending, Popped-Mode, done-Ending, pending-Ending,
}
use luminal.Waker.{Heap}
use luminal.World.{World}
use luminal.Executor.{host, poll_task}
use luminal.Executor.Polls.{poll_task_lem, woken}
use luminal.Executor.BlockOn.{requeue, and_help, help_round, help}
use luminal.Executor.BlockOn.Liveness.Storage.{store}

module _ {V : Type 0} (X : Crossbeam (Task V) V) where
  abbrev pub Ends : {A : Type 0} → ℕ → ℕ → V → Outcome A × World X → Type 0
  Ends n c v (returned _, w) = Ending (store X) n c v w
  Ends n c v (panicked, w) = ⊥

  requeue-Ends :
      (n c : ℕ) (v : V) (r : Outcome (Poll (Unit {0})) × BoxFuture V × World X) (t : Task V)
      (h : Heap)
      → Leaves (store X) n c v r
      → Ends n c v (requeue X (r.0, record t { future = r.1 }, record r.2 { wakers = h }))
  unfolding store
  requeue-Ends n c v (returned (ready _), b, w) t h l = done-Ending (store X) n c v b w l
  requeue-Ends n c v (returned pending, b, w) t h l =
      pending-Ending (store X) n c v (record t { future = b }) w l
  requeue-Ends n c v (panicked, b, w) t h l = absurd l

  -- The run of a task in hand spends a poll.
  run-Ends :
      (n c a b n' m' : ℕ) (v : V) (t : Task V) (w : World X)
      → a + n' ≤ suc n
      → BoxCosts a b t.future
      → ListCosts n' m' (X.items w.global_queue)
      → Mode (store X) c v t.future w
      → Ends n c v (requeue X (poll_task X t w))
  unfolding poll store
  run-Ends n c a b n' m' v t w le k q md = rw (poll_task_lem X t w) (
      requeue-Ends n c v (poll_box (host X) t.future (woken X t w)) t _
        (poll_box-Leaves (store X) n c a b n' m' v t.future (woken X t w) le k q tt md))

  and_help-Ends :
      (n c : ℕ) (v : V) (r : Outcome (Unit {0}) × World X)
      → (rest : World X → Outcome Bool × World X)
      → ((u : World X) → Ending (store X) n c v u → Ends n c v (rest u))
      → Ends n c v r
      → Ends n c v (and_help X r rest)
  and_help-Ends n c v (returned _, w) rest next p = next w p
  and_help-Ends n c v (panicked, w) rest next p = absurd p

  Ends-pred : (n c : ℕ) (v : V) (r : Outcome Bool × World X) → Ends (n - 1) c v r → Ends n c v r
  Ends-pred n c v (returned _, w) p = Ending-mono (store X) (n - 1) n c v w (omega arith) p
  Ends-pred n c v (panicked, w) p = absurd p

  help_round-Ends :
      (n c : ℕ) (v : V) (s : Steal (Task V)) (b : Bool) (q : X.Injector) (w : World X)
      → Takes s (X.items w.global_queue) (X.items q)
      → s ≢ Steal.retry
      → (rest : Bool → World X → Outcome Bool × World X)
      → ((u : World X) → Ending (store X) (n - 1) c v u → Ends (n - 1) c v (rest true u))
      → Ending (store X) n c v w
      → Ends (n - 1) c v (help_round X s b (record w { global_queue = q }) rest)
  unfolding store
  help_round-Ends n c v (Steal.success t) b q w e calm rest next p =
      let u = record w { global_queue = q } in
      let (a, b', n', m', le, k, l, room, md) =
        Popped-Mode (store X) n c v t w u
          (record {
            taken = ([], _, e, refl);
            same_next = refl;
            same_waits = λ d x. x;
            same_has = λ d x y. y;
          })
          p in
      and_help-Ends (n - 1) c v _ (rest true) next (run-Ends (n - 1) c a b' n' m' v t u le k l md)
  help_round-Ends n c v Steal.empty b q w (e, e') calm rest next p =
      emptied-Ending (store X) n c v w (record w { global_queue = q }) e e' refl (λ x. x) p
  help_round-Ends n c v Steal.retry b q w e calm rest next p = absurd (calm refl)

  module _ (calm : (q : X.Injector) → (X.steal q).0 ≢ Steal.retry) where
    help-Ends :
        (k n c : ℕ) (v : V) (b : Bool) (w : World X)
        → Ending (store X) n c v w
        → Ends n c v (help X k b w)
    unfolding help
    help-Ends zero n c v b w p = p
    help-Ends (suc k) n c v b w p = Ends-pred n c v _ (
        help_round-Ends n c v _ b _ w (X.steal_lem w.global_queue) (calm w.global_queue) (help X k)
          (help-Ends k (n - 1) c v true) p)

    pub help-progress :
        (k n c : ℕ) (v : V) (b : Bool) (w : World X)
        → Ending (store X) n c v w
        → Ends (n - 1) c v (help X (suc k) b w)
    unfolding help
    help-progress k n c v b w p =
        help_round-Ends n c v _ b _ w (X.steal_lem w.global_queue) (calm w.global_queue) (help X k)
          (help-Ends k (n - 1) c v true) p
