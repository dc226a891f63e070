-- ===== src/Worker/Liveness/Served.antt =====
-- `block_on` of src/runtime/executor.rs while the one worker of the executor (src/runtime/worker.rs)
-- makes its passes.
use mathlib.Core.Path.{subst}
use luminal.Prelude.{
  ℕ, zero, suc, ◌+◌, ◌-◌, ◌≤◌, ◌<◌, ◌≡◌, ◌≢◌, ◌∙◌, inl, inr, refl, sym, ap, Bool, true, false, ◌∷◌,
  ◌++◌, update, arith,
}
use luminal.Crossbeam.{Crossbeam, Steal, TryRecv, Takes}
use luminal.Task.{JoinHandle, Future, BoxFuture, Task}
use luminal.Task.Poll.{Poll, ready, pending, Outcome, returned, panicked, poll_box, poll}
use luminal.Task.Finite.{Costs, ListCosts, Gives}
use luminal.Task.Senders.{Others}
use luminal.Task.Progress.Settles.{Leaves, poll_box-Leaves}
use luminal.Task.Progress.Rounds.{
  Ending-cases, Ending-mono, Popped-Mode, done-Ending, pending-Ending, spawned-Ending,
}
use luminal.Waker.{Heap}
use luminal.World.{World}
use luminal.Executor.{host, poll_task, spawn, spawn_internal}
use luminal.Executor.Polls.{poll_task_lem, woken}
use luminal.Executor.BlockOn.{
  requeue, and_help, help_round, help, helped_turn, turn_on, turn, after_turn, wait_for, block_on,
}
use luminal.Executor.BlockOn.Liveness.{receive-first, receive-none}
use luminal.Executor.BlockOn.Liveness.Storage.{store, Silent, placed}
use luminal.Worker.{Loop, ends, unwound, no_fuel, Pass, stops, continues, pass}
use luminal.Worker.StealOrder.{started}
use luminal.Worker.Invariant.Passes.{pass-K}
use luminal.Worker.Invariant.Helps.{turn_on-K}
use luminal.Worker.Passes.{Passes, pass-Passes}
use luminal.Worker.Liveness.Storage.{own_store, helped-Popped}
use luminal.Worker.Liveness.Steals.{Open, Ends, same-Open}
use luminal.Worker.Liveness.Turns.{Progress}
use luminal.Worker.Liveness.Idle.{pass-Open}
use luminal.Worker.Liveness.{Any, Up, Up-Runs, fuelled}

module _ {V : Type 0} (X : Crossbeam (Task V) V) (c : ℕ) (v : V) where
  -- A task that the blocked thread has polled goes back to the global queue.
  requeue-Ends :
      (n : ℕ) (r : Outcome (Poll (Unit {0})) × BoxFuture V × World X) (t : Task V) (h : Heap)
      → Leaves (own_store X 0) n c v r
      → Ends X 0 c v n (requeue X (r.0, record t { future = r.1 }, record r.2 { wakers = h }))
  unfolding own_store store
  requeue-Ends n (returned (ready _), b, w) t h l = done-Ending (own_store X 0) n c v b w l
  requeue-Ends n (returned pending, b, w) t h l =
      pending-Ending (own_store X 0) n c v (record t { future = b }) w l
  requeue-Ends n (panicked, b, w) t h l = absurd l

  pred-Ends :
      {A : Type 0} (n : ℕ) (r : Outcome A × World X) → Ends X 0 c v (n - 1) r → Ends X 0 c v n r
  pred-Ends n (returned _, w) o = Ending-mono (own_store X 0) (n - 1) n c v w (omega arith) o
  pred-Ends n (panicked, w) o = absurd o

  and_help-Ends :
      (n : ℕ) (r : Outcome (Unit {0}) × World X) (rest : World X → Outcome Bool × World X)
      → ((u : World X) → Open X 0 c v n u → Ends X 0 c v n (rest u))
      → Ends X 0 c v n r
      → Ends X 0 c v n (and_help X r rest)
  and_help-Ends n (returned _, w) rest next o = next w o
  and_help-Ends n (panicked, w) rest next o = absurd o

  run-Ends :
      (n : ℕ) (t : Task V) (q : X.Injector) (w : World X)
      → X.items w.global_queue ≡ t ∷ X.items q
      → Open X 0 c v n w
      → Ends X 0 c v (n - 1) (requeue X (poll_task X t (record w { global_queue = q })))
  unfolding poll own_store store
  run-Ends n t q w e o =
      let u = record w { global_queue = q } in
      let (a, b, n', m', le, k, l, room, md) =
        Popped-Mode (own_store X 0) n c v t w u (helped-Popped X 0 t w q e) o in
      rw (poll_task_lem X t u) (
        requeue-Ends (n - 1) (poll_box (host X) t.future (woken X t u)) t _ (
          poll_box-Leaves (own_store X 0) (n - 1) c a b n' m' v t.future (woken X t u) le k l tt
            md))

  help_round-Ends :
      (n : ℕ) (s : Steal (Task V)) (b : Bool) (q : X.Injector) (w : World X)
      → (rest : Bool → World X → Outcome Bool × World X)
      → ((h : Bool) (u : World X) → Open X 0 c v n u → Ends X 0 c v n (rest h u))
      → Takes s (X.items w.global_queue) (X.items q)
      → Open X 0 c v n w
      → Ends X 0 c v n (help_round X s b (record w { global_queue = q }) rest)
  help_round-Ends n (Steal.success t) b q w rest next e o =
      and_help-Ends n _ (rest true) (next true) (pred-Ends n _ (run-Ends n t q w e o))
  help_round-Ends n Steal.empty b q w rest next (e, e') o =
      same-Open X 0 c v n w q w.deques (ap (λ x. X.local (w.deques 0) ++ x) (e' ∙ sym e)) o
  help_round-Ends n Steal.retry b q w rest next e o =
      next b _ (same-Open X 0 c v n w q w.deques (ap (λ x. X.local (w.deques 0) ++ x) e) o)

  help-Ends : (k n : ℕ) (b : Bool) (w : World X) → Open X 0 c v n w → Ends X 0 c v n (help X k b w)
  unfolding help
  help-Ends zero n b w o = o
  help-Ends (suc k) n b w o =
      help_round-Ends n _ b _ w (help X k) (help-Ends k n) (X.steal_lem w.global_queue) o

  helped_turn-ends :
      (n i : ℕ) (r : Outcome Bool × World X) (rest : ℕ → World X → Loop V × World X)
      → ((i' : ℕ) (u : World X) → Up X u → Open X 0 c v n u → (rest i' u).0 ≡ ends v)
      → Up X (helped_turn X i r).1
      → Ends X 0 c v n r
      → (after_turn X (helped_turn X i r) rest).0 ≡ ends v
  helped_turn-ends n i (returned b, w) rest next up o = next _ w up o
  helped_turn-ends n i (panicked, w) rest next up o = absurd o

  passed-Open :
      (n : ℕ) (w : World X) (r : Loop Pass × World X)
      → Passes X false w r
      → Progress X 0 c v n r
      → Open X 0 c v n r.1
  passed-Open n w (ends stops, u) ps o = absurd o
  passed-Open n w (ends (continues i p), u) ps o = o
  passed-Open n w (unwound, u) ps o = absurd o
  passed-Open n w (no_fuel, u) ps o = absurd ps

module _ {V : Type 0} (X : Crossbeam (Task V) V) (fuel : ℕ) (idle : ℕ → ℕ) where
  -- The worker makes a pass before each turn.
  abbrev pub worker_passes : ℕ → World X → World X
  worker_passes l w = (pass X fuel (started 0) (idle l) w).1

module _ {V : Type 0} (X : Crossbeam (Task V) V)
    (calm : (q : X.Injector) → (X.steal q).0 ≢ Steal.retry) (fuel : ℕ) (idle : ℕ → ℕ) where
  turn-ends :
      (n i : ℕ) (v : V) (j : JoinHandle) (w : World X) (rest : ℕ → World X → Loop V × World X)
      → (1 ≤ n
          → (i' : ℕ) (u : World X) → Up X u
          → Open X 0 j.receiver v n u
          → (rest i' u).0 ≡ ends v)
      → Up X w
      → Open X 0 j.receiver v n w
      → (after_turn X (turn X j i w) rest).0 ≡ ends v
  unfolding turn own_store store
  turn-ends n i v j w rest next up o = elim (Ending-cases (own_store X 0) n j.receiver v w o) [
    | inl there ↦ receive-first X _ _ _ _ v i _ (X.try_recv_lem (w.channels j.receiver)) there rest
    | inr (pos, silent, looked) ↦
        let got = X.try_recv (w.channels j.receiver) in
        let u : World X = record w { channels = update w.channels j.receiver got.1 } in
        let (e, s) =
          receive-none X _ _ _ _ (X.try_recv_lem (w.channels j.receiver)) silent.0 silent.1 in
        let quiet : Silent X got.1 = (s, X.live-try_recv (w.channels j.receiver) ∙ silent.1) in
        subst (λ r. (after_turn X (turn_on X r i u) rest).0 ≡ ends v) (sym e)
          (helped_turn-ends X j.receiver v n i (help X 4 false u) rest (next pos)
            (turn_on-K X (Any X) (Up X) (Up-Runs X) TryRecv.empty i u up)
            (help-Ends X j.receiver v 4 n false u
              (looked u refl refl (placed X (Silent X) w.channels j.receiver got.1 quiet))))
  ]

  wait_for-ends :
      (k n i : ℕ) (v : V) (j : JoinHandle) (w : World X)
      → n < k
      → n < fuel
      → Up X w
      → Open X 0 j.receiver v n w
      → (wait_for X (worker_passes X fuel idle) k j i w).0 ≡ ends v
  unfolding wait_for
  wait_for-ends zero n i v j w h h' up o = absurd (omega arith)
  wait_for-ends (suc k) n i v j w h h' up o =
      let r = pass X fuel (started 0) (idle k) w in
      let ps : Passes X false w r =
        subst (λ b. Passes X b w r) up
          (pass-Passes X fuel (started 0) (idle k) w (fuelled X 0 j.receiver v n fuel w h' o)) in
      let o' : Open X 0 j.receiver v (n - 1) r.1 =
        passed-Open X j.receiver v (n - 1) w r ps
          (pass-Open X j.receiver v calm n fuel (idle k) w up o) in
      turn-ends (n - 1) i v j r.1 (wait_for X (worker_passes X fuel idle) k j)
        (λ pos i' u up' o''. wait_for-ends k (n - 1) i' v j u (omega arith) (omega arith) up' o'')
        (pass-K X (Any X) (Up X) (Up-Runs X) fuel (started 0) (idle k) w up) o'

  -- A thread that blocks on a future gets its result while the one worker of the executor makes a
  -- pass before each of its turns, at any idle count, so that either of the two may run any of the
  -- tasks. The future gives `v` and awaits nothing. `a` polls end it and all tasks that it spawns,
  -- directly or not, together; these are `b` at most, and none of them awaits a handle or panics.
  -- The tasks in the local queue of the worker and in the global queue, with what they spawn, end
  -- likewise in `n` polls, and none of them holds the sender of the channel that comes next; no
  -- steal of a single task loses a race; the flag of the shutdown is down; and each pass has fuel
  -- for more than `a + n` local tasks. Then `a + n + 1` turns are enough.
  pub block_on-served :
      (k a b n m : ℕ) (f : Future V) (v : V) (w : World X)
      → Costs a b f
      → Gives v f
      → ListCosts n m (X.local (w.deques 0) ++ X.items w.global_queue)
      → Others w.next_channel (X.local (w.deques 0) ++ X.items w.global_queue)
      → w.shutdown ≡ false
      → a + n < k
      → a + n < fuel
      → (block_on X (worker_passes X fuel idle) k f w).0 ≡ ends v
  unfolding block_on spawn spawn_internal own_store store
  block_on-served k a b n m f v w c g q others up lt lt' =
      wait_for-ends k (a + n) 0 v _ _ lt lt' up
        (spawned-Ending (own_store X 0) a b n m f v w c g q tt others)
