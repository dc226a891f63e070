-- ===== src/Errors.antt =====
-- The error types of src/lib.rs and src/runtime/error.rs, and what `Display` writes for them.
use Prim.Native.String.{String, ◌++◌}

pub data RuntimeError : Type 0 where
  task_queue_full : RuntimeError
  runtime_not_initialized : RuntimeError
  task_panic : String → RuntimeError

pub data TaskError : Type 0 where
  disconnected : TaskError
  timeout : TaskError
  panicked : TaskError

unfoldable pub fmt_runtime : RuntimeError → String
fmt_runtime task_queue_full = "Task queue is full"
fmt_runtime runtime_not_initialized = "Runtime not initialized"
fmt_runtime (task_panic msg) = "Task panicked: " ++ msg

unfoldable pub fmt_task : TaskError → String
fmt_task disconnected = "Task channel disconnected"
fmt_task timeout = "Task timed out"
fmt_task panicked = "Task panicked"
