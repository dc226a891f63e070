-- ===== src/Task.antt =====
-- src/runtime/task.rs, and the data type of src/runtime/join_handle.rs: task ids, tasks and the
-- futures that they run.
pub mod Ids
pub mod Poll
pub mod Finite
pub mod Senders
pub mod Progress
use luminal.Prelude.{ℕ, ◌+◌, ◌%◌, ◌^◌}

pub record TaskId : Type 0 where
  pub raw : ℕ

-- `TaskId::new`, over the value of its static counter.
unfoldable pub new_id : ℕ → TaskId × ℕ
new_id next = (record { raw = next }, (next + 1) % 2 ^ 64)

unfoldable pub get : TaskId → ℕ
get id = id.raw

-- The receiver is the number of the task's channel, or result queue, in the store of these.
pub record JoinHandle : Type 0 where
  pub id : TaskId
  pub receiver : ℕ

-- The code of an async block with results in `V`, as far as the runtime can tell one from another:
-- it ends, gives way once, spawns a future on the runtime, awaits a join handle, or panics. It awaits
-- nothing else, and so nothing that looks at the context of a poll: the poll of a join handle does not.
-- A future that keeps or wakes its waker is left out.
pub data Future (V : Type 0) : Type 0 where
  value : V → Future V
  yields : Future V → Future V
  spawns : Future V → (JoinHandle → Future V) → Future V
  joins : JoinHandle → (V → Future V) → Future V
  panics : Future V

-- The future in a task: the wrapper that `spawn` makes, which owns the sender of a channel; the
-- `async {}` of a default task; or either after its end.
pub data BoxFuture (V : Type 0) : Type 0 where
  wrapped : ℕ → Future V → BoxFuture V
  unit : BoxFuture V
  completed : BoxFuture V

pub record Task (V : Type 0) : Type 0 where
  pub id : TaskId
  pub future : BoxFuture V

abbrev pub new_task : {V : Type 0} → TaskId → BoxFuture V → Task V
new_task id future = record { id = id; future = future }

-- `Task::default`, which draws an id from the static counter.
unfoldable pub default : {V : Type 0} → ℕ → Task V × ℕ
unfolding new_id
default next = let (id, next') = new_id next in (record { id = id; future = unit }, next')
