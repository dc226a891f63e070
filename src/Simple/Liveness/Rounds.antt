-- ===== src/Simple/Liveness/Rounds.antt =====
-- The rounds of `block_on` over the task queue (src/runtime/simple_executor.rs), when all tasks come
-- to an end.
use luminal.Prelude.{[], ℕ, zero, suc, ◌+◌, ◌-◌, ◌≤◌, refl, Option, none, some, length, arith}
use luminal.Crossbeam.{Pops}
use luminal.Task.{BoxFuture, Task}
use luminal.Task.Poll.{Poll, ready, pending, Outcome, returned, panicked, poll_box, poll}
use luminal.Task.Finite.{BoxCosts, ListCosts}
use luminal.Task.Progress.Settles.{Leaves, Mode, poll_box-Leaves}
use luminal.Task.Progress.Rounds.{
  Ending, Ending-mono, emptied-Ending, Popped-Mode, done-Ending, pending-Ending,
}
use luminal.Waker.{Heap}
use luminal.Heapless.{Heapless}
use luminal.Simple.{SimpleExecutor, host, poll_task, finish, and_then, process_round, process}
use luminal.Simple.Polls.{poll_task_lem, woken}
use luminal.Simple.Liveness.Storage.{store}

module _ {V : Type 0} (H : Heapless (Task V) V 1024 16) where
  abbrev pub Ends : ℕ → ℕ → V → Outcome (Unit {0}) × SimpleExecutor H → Type 0
  Ends n c v (returned _, w) = Ending (store H) n c v w
  Ends n c v (panicked, w) = ⊥

  finish-Ends :
      (n c : ℕ) (v : V) (r : Outcome (Poll (Unit {0})) × BoxFuture V × SimpleExecutor H)
      (t : Task V) (h : Heap)
      → Leaves (store H) n c v r
      → Ends n c v (finish H (r.0, record t { future = r.1 }, record r.2 { wakers = h }))
  unfolding store
  finish-Ends n c v (returned (ready _), b, w) t h l = done-Ending (store H) n c v b w l
  finish-Ends n c v (returned pending, b, w) t h l =
      pending-Ending (store H) n c v (record t { future = b }) w l
  finish-Ends n c v (panicked, b, w) t h l = absurd l

  -- The run of a task in hand spends a poll.
  run-Ends :
      (n c a b n' m' : ℕ) (v : V) (t : Task V) (w : SimpleExecutor H)
      → a + n' ≤ suc n
      → BoxCosts a b t.future
      → ListCosts n' m' (H.entries w.global_queue)
      → suc (length (H.entries w.global_queue) + (b + m')) ≤ 1024
      → Mode (store H) c v t.future w
      → Ends n c v (finish H (poll_task H t w))
  unfolding poll store
  run-Ends n c a b n' m' v t w le k q room md = rw (poll_task_lem H t w) (
      finish-Ends n c v (poll_box (host H) t.future (woken H t w)) t _
        (poll_box-Leaves (store H) n c a b n' m' v t.future (woken H t w) le k q room md))

  and_then-Ends :
      (n c : ℕ) (v : V) (r : Outcome (Unit {0}) × SimpleExecutor H)
      → (rest : SimpleExecutor H → Outcome (Unit {0}) × SimpleExecutor H)
      → ((u : SimpleExecutor H) → Ending (store H) n c v u → Ends n c v (rest u))
      → Ends n c v r
      → Ends n c v (and_then H r rest)
  and_then-Ends n c v (returned _, w) rest next p = next w p
  and_then-Ends n c v (panicked, w) rest next p = absurd p

  Ends-pred :
      (n c : ℕ) (v : V) (r : Outcome (Unit {0}) × SimpleExecutor H)
      → Ends (n - 1) c v r
      → Ends n c v r
  Ends-pred n c v (returned _, w) p = Ending-mono (store H) (n - 1) n c v w (omega arith) p
  Ends-pred n c v (panicked, w) p = absurd p

  process_round-Ends :
      (n c : ℕ) (v : V) (o : Option (Task V)) (q : H.Deque) (w : SimpleExecutor H)
      → Pops o (H.entries w.global_queue) (H.entries q)
      → (rest : SimpleExecutor H → Outcome (Unit {0}) × SimpleExecutor H)
      → ((u : SimpleExecutor H) → Ending (store H) (n - 1) c v u → Ends (n - 1) c v (rest u))
      → Ending (store H) n c v w
      → Ends (n - 1) c v (process_round H o (record w { global_queue = q }) rest)
  unfolding store
  process_round-Ends n c v none q w (e, e') rest next p =
      emptied-Ending (store H) n c v w (record w { global_queue = q }) e e' refl (λ x. x) p
  process_round-Ends n c v (some t) q w e rest next p =
      let u = record w { global_queue = q } in
      let (a, b, n', m', le, k, l, room, md) =
        Popped-Mode (store H) n c v t w u
          (record {
            taken = ([], _, e, refl);
            same_next = refl;
            same_waits = λ d x. x;
            same_has = λ d x y. y;
          })
          p in
      and_then-Ends (n - 1) c v _ rest next (run-Ends (n - 1) c a b n' m' v t u le k l room md)

  process-Ends :
      (k n c : ℕ) (v : V) (w : SimpleExecutor H)
      → Ending (store H) n c v w
      → Ends n c v (process H k w)
  unfolding process
  process-Ends zero n c v w p = p
  process-Ends (suc k) n c v w p = Ends-pred n c v _ (
      process_round-Ends n c v _ _ w (H.pop_front_lem w.global_queue) (process H k)
        (process-Ends k (n - 1) c v) p)

  pub process-progress :
      (k n c : ℕ) (v : V) (w : SimpleExecutor H)
      → Ending (store H) n c v w
      → Ends (n - 1) c v (process H (suc k) w)
  unfolding process
  process-progress k n c v w p =
      process_round-Ends n c v _ _ w (H.pop_front_lem w.global_queue) (process H k)
        (process-Ends k (n - 1) c v) p
