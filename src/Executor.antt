-- ===== src/Executor.antt =====
-- src/runtime/executor.rs: spawning, statistics, the host that a polled future sees, and `block_on`.
pub mod Polls
pub mod Balance
pub mod Promise
pub mod Drops
pub mod Threads
pub mod BlockOn
use luminal.Prelude.{ℕ, ◌+◌, ◌%◌, ◌^◌, update}
use luminal.Crossbeam.{Crossbeam}
use luminal.Task.{TaskId, JoinHandle, Future, BoxFuture, wrapped, Task, new_task}
use luminal.Task.Poll.{Poll, Outcome, returned, panicked, Host, poll}
use luminal.Waker.{done, misaligned, dangling, create_task_waker, drop}
use luminal.World.{World}
use luminal.JoinHandle.{poll_handle}

module _ {V : Type 0} (X : Crossbeam (Task V) V) where
  unfoldable pub spawn_internal : BoxFuture V → World X → TaskId × World X
  spawn_internal f w =
      let id : TaskId = record { raw = w.next_task_id } in
      (
        id,
        record w {
          next_task_id = (w.next_task_id + 1) % 2 ^ 64;
          global_queue = X.push w.global_queue (new_task id f);
        },
      )

  unfoldable pub spawn : Future V → World X → JoinHandle × World X
  unfolding spawn_internal
  spawn f w =
      let c = w.next_channel in
      let (id, w') =
        spawn_internal (wrapped c f)
          (record w { channels = update w.channels c X.unbounded; next_channel = c + 1 }) in
      (record { id = id; receiver = c }, w')

  unfoldable pub stats : World X → ℕ × ℕ
  stats w = (X.len w.global_queue, w.tasks_processed)

  -- `sender.send(result)`, after which the sender is dropped with the wrapper.
  unfoldable pub deliver : ℕ → V → World X → World X
  deliver c v w = record w {
    channels = update w.channels c (X.drop_sender (X.send (w.channels c) v));
  }

  unfoldable pub abandon : ℕ → World X → World X
  abandon c w = record w { channels = update w.channels c (X.drop_sender (w.channels c)) }

  abbrev pub host : Host V (World X)
  host = record { spawn = spawn; join = poll_handle X; deliver = deliver; abandon = abandon }

  -- The waker of a poll is dropped when the poll is over.
  abbrev pub release :
      ℕ
      → Outcome (Poll (Unit {0})) × Task V × World X
      → Outcome (Poll (Unit {0})) × Task V × World X
  release a (r, t, w) = elim (drop a w.wakers) [
    | done h ↦ (r, t, record w { wakers = h })
    | misaligned ↦ (panicked, t, w)
    | dangling ↦ (panicked, t, w)
  ]

  -- `create_task_waker`, `Context::from_waker` and `task.poll(&mut cx)`.
  unfoldable pub poll_task : Task V → World X → Outcome (Poll (Unit {0})) × Task V × World X
  poll_task t w = elim (create_task_waker t.id w.wakers) [
    | done (a, h) ↦ release a (poll host t (record w { wakers = h }))
    | misaligned ↦ (panicked, t, w)
    | dangling ↦ (panicked, t, w)
  ]
