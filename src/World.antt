-- ===== src/World.antt =====
-- The state that the threads of one executor share: `ExecutorInner` of src/runtime/executor.rs (its
-- fields, less the handles of the threads), the deques of its workers, which the stealers of other
-- workers alias, the channels of its join handles, the static counter of `TaskId::new` and the heap
-- of its wakers. A deque and a channel are named by a number.
-- `holders` has, for a deque, how many `Worker` and `Stealer` of it exist, and `queue_holders` how many
-- references to the global queue.
use luminal.Prelude.{ℕ, Bool}
use luminal.Crossbeam.{Crossbeam}
use luminal.Task.{Task}
use luminal.Waker.{Heap}

module _ {V : Type 0} (X : Crossbeam (Task V) V) where
  pub record World : Type 0 where
    pub global_queue : X.Injector
    pub shutdown : Bool
    pub next_task_id : ℕ
    pub tasks_processed : ℕ
    pub deques : ℕ → X.Worker
    pub channels : ℕ → X.Channel
    pub next_channel : ℕ
    pub holders : ℕ → ℕ
    pub queue_holders : ℕ
    pub next_id : ℕ
    pub wakers : Heap
