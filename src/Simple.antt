-- ===== src/Simple.antt =====
-- src/runtime/simple_executor.rs, the single-threaded executor of builds without std, with the poll
-- of its join handles (src/runtime/join_handle.rs) and its wakers (src/runtime/waker.rs).
pub mod Polls
pub mod Overflow
pub mod Liveness
use luminal.Prelude.{ℕ, zero, suc, ◌+◌, ◌%◌, ◌^◌, Bool, true, false, Option, none, some, update}
use luminal.Task.{TaskId, JoinHandle, Future, wrapped, Task, new_task}
use luminal.Task.Poll.{Poll, ready, pending, Outcome, returned, panicked, Host, poll}
use luminal.Waker.{Heap, Access, done, misaligned, dangling, create_task_waker, drop}
use luminal.Worker.{Loop, ends, unwound, no_fuel}
use luminal.Heapless.{Heapless}

module _ {V : Type 0} (H : Heapless (Task V) V 1024 16) where
  -- `SimpleExecutor`, with the result queues of its join handles and the heap of its wakers. The
  -- mutex round the task queue is held by one thread at most, and never while a task is polled.
  pub record SimpleExecutor : Type 0 where
    pub global_queue : H.Deque
    pub next_task_id : ℕ
    pub tasks_processed : ℕ
    pub results : ℕ → H.MpMcQueue
    pub next_result : ℕ
    pub wakers : Heap

  unfoldable pub new : Heap → SimpleExecutor
  new wakers = record {
    global_queue = H.new;
    next_task_id = 1;
    tasks_processed = 0;
    results = λ _. H.new_queue;
    next_result = 0;
    wakers = wakers;
  }

  -- A task that finds the queue full is dropped.
  unfoldable pub spawn : Future V → SimpleExecutor → JoinHandle × SimpleExecutor
  spawn f w =
      let c = w.next_result in
      let id : TaskId = record { raw = w.next_task_id } in
      let task : Task V = new_task id (wrapped c f) in
      (
        record { id = id; receiver = c },
        record w {
          results = update w.results c H.new_queue;
          next_result = c + 1;
          next_task_id = (w.next_task_id + 1) % 2 ^ 64;
          global_queue = (H.push_back w.global_queue task).1;
        },
      )

  abbrev pub dequeued : Option V → Poll V
  dequeued (some v) = ready v
  dequeued none = pending

  unfoldable pub poll_handle : JoinHandle → SimpleExecutor → Poll V × SimpleExecutor
  poll_handle j w =
      let (o, q) = H.dequeue (w.results j.receiver) in
      (dequeued o, record w { results = update w.results j.receiver q })

  -- A result that finds its queue full is dropped.
  unfoldable pub deliver : ℕ → V → SimpleExecutor → SimpleExecutor
  deliver c v w = record w { results = update w.results c (H.enqueue (w.results c) v).1 }

  -- A queue without its sender is a queue that stays empty.
  abbrev pub host : Host V SimpleExecutor
  host = record { spawn = spawn; join = poll_handle; deliver = deliver; abandon = λ c w. w }

  abbrev pub release :
      ℕ
      → Outcome (Poll (Unit {0})) × Task V × SimpleExecutor
      → Outcome (Poll (Unit {0})) × Task V × SimpleExecutor
  release a (r, t, w) = elim (drop a w.wakers) [
    | done h ↦ (r, t, record w { wakers = h })
    | misaligned ↦ (panicked, t, w)
    | dangling ↦ (panicked, t, w)
  ]

  -- The version without std is the same code, over another queue.
  unfoldable pub create_waker : TaskId → Heap → Access (ℕ × Heap)
  create_waker id h = create_task_waker id h

  unfoldable pub poll_task :
      Task V → SimpleExecutor → Outcome (Poll (Unit {0})) × Task V × SimpleExecutor
  poll_task t w = elim (create_waker t.id w.wakers) [
    | done (a, h) ↦ release a (poll host t (record w { wakers = h }))
    | misaligned ↦ (panicked, t, w)
    | dangling ↦ (panicked, t, w)
  ]

  -- What follows a poll. A task that waits and finds the queue full is dropped.
  abbrev pub finish :
      Outcome (Poll (Unit {0})) × Task V × SimpleExecutor → Outcome (Unit {0}) × SimpleExecutor
  finish (returned (ready _), t, w) =
      (returned tt, record w { tasks_processed = (w.tasks_processed + 1) % 2 ^ 64 })
  finish (returned pending, t, w) =
      (returned tt, record w { global_queue = (H.push_back w.global_queue t).1 })
  finish (panicked, t, w) = (panicked, w)

  abbrev pub and_then :
      Outcome (Unit {0}) × SimpleExecutor
      → (SimpleExecutor → Outcome (Unit {0}) × SimpleExecutor)
      → Outcome (Unit {0}) × SimpleExecutor
  and_then (returned _, w) rest = rest w
  and_then (panicked, w) rest = (panicked, w)

  -- The match on what `pop_front` gives.
  abbrev pub process_round :
      Option (Task V)
      → SimpleExecutor
      → (SimpleExecutor → Outcome (Unit {0}) × SimpleExecutor)
      → Outcome (Unit {0}) × SimpleExecutor
  process_round none w rest = (returned tt, w)
  process_round (some t) w rest = and_then (finish (poll_task t w)) rest

  -- The loop `for _ in 0..10` of `block_on`: `n` rounds are left.
  unfoldable pub process : ℕ → SimpleExecutor → Outcome (Unit {0}) × SimpleExecutor
  process zero w = (returned tt, w)
  process (suc n) w =
      let rest : SimpleExecutor → Outcome (Unit {0}) × SimpleExecutor = process n in
      let (o, q) = H.pop_front w.global_queue in
      process_round o (record w { global_queue = q }) rest

  -- The match on the result queue of the handle; `rest` is the next turn of the loop.
  abbrev pub check :
      Option V
      → SimpleExecutor
      → (SimpleExecutor → Loop V × SimpleExecutor)
      → Loop V × SimpleExecutor
  check (some v) w rest = (ends v, w)
  check none w rest = rest w

  abbrev pub checked :
      JoinHandle
      → Outcome (Unit {0}) × SimpleExecutor
      → (SimpleExecutor → Loop V × SimpleExecutor)
      → Loop V × SimpleExecutor
  checked j (returned _, w) rest =
      let (o, q) = H.dequeue (w.results j.receiver) in
      check o (record w { results = update w.results j.receiver q }) rest
  checked j (panicked, w) rest = (unwound, w)

  -- The busy loop of `block_on`, on fuel.
  unfoldable pub wait_for : ℕ → JoinHandle → SimpleExecutor → Loop V × SimpleExecutor
  wait_for zero j w = (no_fuel, w)
  wait_for (suc k) j w =
      let rest : SimpleExecutor → Loop V × SimpleExecutor = wait_for k j in
      checked j (process 10 w) rest

  unfoldable pub block_on : ℕ → Future V → SimpleExecutor → Loop V × SimpleExecutor
  block_on k f w = let (j, w') = spawn f w in wait_for k j w'

  unfoldable pub stats : SimpleExecutor → ℕ × ℕ
  stats w = (H.len w.global_queue, w.tasks_processed)
