-- ===== src/Worker/Liveness/Steals.antt =====
-- The run of a task and the steal from the global queue (src/runtime/worker.rs), when all tasks come to
-- an end.
use mathlib.Core.Path.{subst}
use luminal.Prelude.{
  ℕ, ◌-◌, ◌≡◌, ◌≢◌, ◌∙◌, inl, inr, refl, sym, ap, Bool, true, false, [], ◌++◌, update, update_self,
}
use luminal.Crossbeam.{Crossbeam, Steal, Takes, TakesBatch}
use luminal.Task.{BoxFuture, Task}
use luminal.Task.Poll.{Poll, ready, pending, Outcome, returned, panicked, poll_box, poll}
use luminal.Task.Finite.{ListCosts}
use luminal.Task.Senders.{Others, Holds}
use luminal.Task.Progress.Settles.{Leaves, poll_box-Leaves}
use luminal.Task.Progress.Rounds.{Ending, Popped, Popped-Mode, done-Ending, pending-Ending}
use luminal.Waker.{Heap}
use luminal.World.{World}
use luminal.Executor.{host}
use luminal.Executor.Polls.{poll_task_lem, woken}
use luminal.Executor.BlockOn.Liveness.Storage.{store}
use luminal.Worker.{finish, run_task, found, attempt, give_up, steal_one, steal_global}
use luminal.Worker.Liveness.Storage.{own_store, global-Popped}

module _ {V : Type 0} (X : Crossbeam (Task V) V) (d c : ℕ) (v : V) where
  abbrev pub Open : ℕ → World X → Type 0
  Open n w = Ending (own_store X d) n c v w

  abbrev pub Ends : {A : Type 0} → ℕ → Outcome A × World X → Type 0
  Ends n (returned _, w) = Open n w
  Ends n (panicked, w) = ⊥

  finish-Ends :
      (n : ℕ) (r : Outcome (Poll (Unit {0})) × BoxFuture V × World X) (t : Task V) (h : Heap)
      → Leaves (own_store X d) n c v r
      → Ends n (finish X (r.0, record t { future = r.1 }, record r.2 { wakers = h }))
  unfolding own_store store
  finish-Ends n (returned (ready _), b, w) t h l = done-Ending (own_store X d) n c v b w l
  finish-Ends n (returned pending, b, w) t h l =
      pending-Ending (own_store X d) n c v (record t { future = b }) w l
  finish-Ends n (panicked, b, w) t h l = absurd l

  -- The run of the first task spends a poll.
  pub run_task-Ends :
      (n : ℕ) (t : Task V) (w u : World X)
      → Popped (own_store X d) t w u
      → Open n w
      → Ends (n - 1) (run_task X t u)
  unfolding run_task poll own_store store
  run_task-Ends n t w u p o =
      let (a, b, n', m', le, k, l, room, md) = Popped-Mode (own_store X d) n c v t w u p o in
      rw (poll_task_lem X t u) (
        finish-Ends (n - 1) (poll_box (host X) t.future (woken X t u)) t _ (
          poll_box-Leaves (own_store X d) (n - 1) c a b n' m' v t.future (woken X t u) le k l tt
            md))

  -- The queues may change, if they hold the same tasks in the same order.
  pub same-Open :
      (n : ℕ) (w : World X) (q : X.Injector) (ds : ℕ → X.Worker)
      → X.local (ds d) ++ X.items q ≡ X.local (w.deques d) ++ X.items w.global_queue
      → Open n w
      → Open n (record w { global_queue = q; deques = ds })
  unfolding own_store store
  same-Open n w q ds e (m, l, room, inl (old, hs, r)) =
      (m, subst (ListCosts n m) (sym e) l, tt, inl (old, subst (Holds c v) (sym e) hs, r))
  same-Open n w q ds e (m, l, room, inr (old, o, r)) =
      (m, subst (ListCosts n m) (sym e) l, tt, inr (old, subst (Others c) (sym e) o, r))

  abbrev pub Found : ℕ → Outcome Bool × World X → Type 0
  Found n (returned true, w) = Open n w
  Found n (returned false, w) = ⊥
  Found n (panicked, w) = ⊥

  found-Found : (n : ℕ) (r : Outcome (Unit {0}) × World X) → Ends n r → Found n (found X r)
  found-Found n (returned _, w) p = p
  found-Found n (panicked, w) p = absurd p

  module _ (calm : (q : X.Injector) → (X.steal q).0 ≢ Steal.retry) where
    attempt_one-Found :
        (n : ℕ) (s : Steal (Task V)) (q : X.Injector) (w : World X)
        → X.local (w.deques d) ≡ []
        → X.items w.global_queue ≢ []
        → Takes s (X.items w.global_queue) (X.items q)
        → s ≢ Steal.retry
        → Open n w
        → Found (n - 1) (attempt X s (record w { global_queue = q }) (give_up X))
    attempt_one-Found n (Steal.success t) q w e ne f sure o =
        found-Found (n - 1) _ (run_task-Ends n t w _ (global-Popped X d t w q w.deques [] e f e) o)
    attempt_one-Found n Steal.empty q w e ne f sure o = absurd (ne f.0)
    attempt_one-Found n Steal.retry q w e ne f sure o = absurd (sure refl)

    steal_one-Found :
        (n : ℕ) (w : World X)
        → X.local (w.deques d) ≡ []
        → X.items w.global_queue ≢ []
        → Open n w
        → Found (n - 1) (steal_one X w)
    unfolding steal_one
    steal_one-Found n w e ne o =
        attempt_one-Found n _ _ w e ne (X.steal_lem w.global_queue) (calm w.global_queue) o

    attempt-Found :
        (n : ℕ) (s : Steal (Task V)) (q : X.Injector) (l : X.Worker) (w : World X)
        → X.local (w.deques d) ≡ []
        → X.items w.global_queue ≢ []
        → TakesBatch s (X.items w.global_queue) (X.items q) (X.local (w.deques d)) (X.local l)
        → Open n w
        → Found (n - 1) (
            attempt X s (record w { global_queue = q; deques = update w.deques d l }) (steal_one X))
    attempt-Found n (Steal.success t) q l w e ne (batch, f, g) o = found-Found (n - 1) _ (
        run_task-Ends n t w _
          (global-Popped X d t w q (update w.deques d l) batch e f
            (ap X.local (update_self w.deques d l) ∙ g ∙ ap (λ x. x ++ batch) e))
          o)
    attempt-Found n Steal.empty q l w e ne f o = absurd (ne f.0)
    attempt-Found n Steal.retry q l w e ne (f, g) o =
        let own = ap X.local (update_self w.deques d l) ∙ g in
        steal_one-Found n _ (own ∙ e) (λ h. ne (sym f ∙ h))
          (same-Open n w q (update w.deques d l) (rw (own, f) refl) o)

    pub steal_global-Found :
        (n : ℕ) (w : World X)
        → X.local (w.deques d) ≡ []
        → X.items w.global_queue ≢ []
        → Open n w
        → Found (n - 1) (steal_global X d w)
    unfolding steal_global
    steal_global-Found n w e ne o =
        attempt-Found n _ _ _ w e ne (X.steal_batch_and_pop_lem w.global_queue (w.deques d)) o
