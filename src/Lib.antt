-- ===== src/Lib.antt =====
-- A verification of Luminal, an async runtime in Rust: tasks, wakers, a work-stealing executor with
-- worker threads, a single-threaded executor for builds without std, and the runtimes and handles
-- that share an executor.
--
-- The parts, from the inside out, with the code that each models:
--   * Prelude: names, tests on numbers, and lists that the other modules share.
--   * Crossbeam and Heapless: what the runtime takes from the crates of these names, as records of
--     operations with the laws that their documentation states. They are parameters of every
--     definition that uses them. Crossbeam.Listed and Heapless.Listed are lists that meet the laws.
--   * Task (src/runtime/task.rs): ids, tasks and futures. A future is an async block as the runtime can
--     see it: it ends, gives way, spawns, awaits a join handle, or panics. Task.Poll is one poll, over
--     a record of what a future can ask of its runtime (Host), with the wrapper that `spawn` puts
--     round a future. Task.Poll.Keeps, Task.Poll.Promise and Task.Finite carry invariants, promised
--     results and costs through a poll. Task.Progress has what both executors share in coming to an
--     end: an interface (Store) that each fills with its queues, and the rounds over it.
--   * Waker (src/runtime/waker.rs): the boxed data of wakers on a heap with addresses, and the functions
--     of the table, with their assertions; Waker.Ownership has programs that use them.
--   * World and Executor (src/runtime/executor.rs): the state that the threads of an executor share,
--     `spawn_internal`, `spawn`, `stats`; Executor.Threads has `ExecutorInner::new` and `drop`,
--     Executor.Drops what goes with the last owner of a queue,
--     Executor.BlockOn has `block_on` with the help that the blocked thread gives, and
--     Executor.BlockOn.Handles what it gives on join handles.
--   * JoinHandle (src/runtime/join_handle.rs): the poll of a handle.
--   * Worker (src/runtime/worker.rs): `run` and one pass of it, with `run_task` and `steal_work`;
--     Worker.NoStd has the version of `run` without std, Worker.Liveness a worker that
--     is alone, and Worker.Liveness.Served one beside a thread that is blocked.
--   * System: all threads of an executor, interleaved. A step is a check of the flag, a round of a
--     loop with the task that it runs, or a call of the program. System.Shutdown follows one worker to its
--     end.
--   * Pool: what an executor is for its users, without its queues: a bag of tasks (Prelude.Bags), any of
--     which is polled next. Pool.View sees a state as a bag, Pool.Refines shows the steps of System to
--     be steps of the bag, and Pool.Senders and Pool.Severed draw on that.
--   * Simple (src/runtime/simple_executor.rs): the single-threaded executor.
--   * Errors (src/lib.rs, src/runtime/error.rs), Runtime (src/runtime/runtime.rs) and Handle (src/runtime/handle.rs):
--     the public interface. An `Arc` is the number of an executor in a store with counts of owners.
--   * Workloads and Benchmarks (src/main.rs): the tasks of the benchmarks, and the benchmarks. The
--     runtime under test is an interface (Backend), with a law (Benchmarks.Totals.Reliable) from which
--     the sums follow (Benchmarks.Prints). Benchmarks.Luminal has this runtime, which meets the law by
--     Executor.BlockOn.Handles; Benchmarks.Tokio has tokio, which is a parameter, and
--     Benchmarks.Comparison the comparison of the two, over a clock that is a parameter.
--   * Tests: runs of the definitions, and uses of the theorems, at concrete inputs.
--
-- How the state corresponds: a deque, a channel and a result queue are named by a number, and the
-- world maps the number to the queue; an `Arc` to the global queue is the one field of the world. A
-- queue has a count of its owners; a worker that ends drops what it owns, and the last owner of a
-- queue drops the tasks in it and the senders of their results. Counters wrap at their 32 or 64
-- bits, as release builds do. A panic is a value that unwinds the loop it meets. A lost race of a
-- steal is a result that the interface may give at any time.
--
-- Fuel: `drain`, and with it `pass`, has fuel for the rounds of the loop over the local queue, `run` has
-- it for its passes, and the two `wait_for` have it for the turns of `block_on`. The results on `pass`,
-- on `run` and on the two `block_on` say how much is enough, and so do those on the benchmarks. A thread
-- that waits for ever uses up any fuel.
--
-- Not modelled: futures that keep or wake the waker of a poll (join handles ignore it, and so do the
-- futures here), memory orderings and interleavings inside one poll (a poll is one step), the time that
-- a pause takes, names of threads and output, `Executor::run`, which only sleeps, and of src/main.rs
-- `main` and the demo. Starting a thread is taken to succeed.
pub mod Pool
pub mod Prelude
pub mod Benchmarks
pub mod Crossbeam
pub mod Task
pub mod Waker
pub mod World
pub mod JoinHandle
pub mod Executor
pub mod Worker
pub mod System
pub mod Heapless
pub mod Simple
pub mod Errors
pub mod Runtime
pub mod Handle
pub mod Workloads
pub mod Tests
