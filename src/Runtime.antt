-- ===== src/Runtime.antt =====
-- src/runtime/runtime.rs: runtimes share their executor by reference counting, and each thread may
-- keep one for the global functions.
pub mod Sharing
pub mod Global
use luminal.Prelude.{
  ℕ, zero, suc, ◌+◌, ◌-◌, ◌==◌, if◌then◌else◌, Bool, true, false, List, [], Option, none, some,
  update,
}
use luminal.Crossbeam.{Crossbeam}
use luminal.Errors.{RuntimeError}
use luminal.Task.{JoinHandle, Future, Task}
use luminal.Waker.{Heap}
use luminal.World.{World}
use luminal.Worker.{WorkerThread, Loop}
use luminal.Executor
use luminal.Executor.BlockOn
use luminal.Executor.Threads

-- `Arc<Executor>`: the number of an executor.
pub record Runtime : Type 0 where
  pub executor : ℕ

-- `Result<Runtime, RuntimeError>`; `Runtime::new` gives no error.
pub data Result (A : Type 0) : Type 0 where
  ok : A → Result A
  err : RuntimeError → Result A

module _ {V : Type 0} (X : Crossbeam (Task V) V) where
  -- An executor behind an `Arc`: its count of owners, the executor, and the workers it started.
  pub record Cell : Type 0 where
    pub strong : ℕ
    pub world : World X
    pub workers : List WorkerThread

  -- The executors that were made, and the runtime that the thread keeps for itself.
  pub record Process : Type 0 where
    pub cells : ℕ → Cell
    pub next_cell : ℕ
    pub thread_runtime : Option Runtime

  abbrev pub with_world : Process → ℕ → World X → Process
  with_world p e w = record p { cells = update p.cells e (record (p.cells e) { world = w }) }

  -- What the system says of the processors is an argument. The static counter and the heap of the
  -- wakers start anew in each executor; nothing reads the ids that the counter gives.
  unfoldable pub new : Option ℕ → Process → Result Runtime × Process
  new available p =
      let (crew, w) = Threads.new X available 1 (record { boxes = 0; live = [] }) in
      let e = p.next_cell in
      (
        ok (record { executor = e }),
        record p {
          cells = update p.cells e (record { strong = 1; world = w; workers = crew });
          next_cell = e + 1;
        },
      )

  unfoldable pub spawn : Runtime → Future V → Process → JoinHandle × Process
  spawn rt f p =
      let (j, w) = Executor.spawn X f (p.cells rt.executor).world in (j, with_world p rt.executor w)

  unfoldable pub block_on :
      (ℕ → World X → World X) → ℕ → Runtime → Future V → Process → Loop V × Process
  block_on others k rt f p =
      let (r, w) = BlockOn.block_on X others k f (p.cells rt.executor).world in
      (r, with_world p rt.executor w)

  unfoldable pub stats : Runtime → Process → ℕ × ℕ
  stats rt p = Executor.stats X (p.cells rt.executor).world

  -- `Arc::clone`.
  abbrev pub share : ℕ → Process → Process
  share e p = record p {
    cells = update p.cells e (record (p.cells e) { strong = (p.cells e).strong + 1 });
  }

  unfoldable pub clone : Runtime → Process → Runtime × Process
  clone rt p = (record { executor = rt.executor }, share rt.executor p)

  -- The drop of an `Arc<Executor>`: the last one drops the executor. What its threads do then, and what
  -- goes with them, is in System.
  unfoldable pub release : ℕ → Process → Process
  release e p =
      let c = p.cells e in
      let n = c.strong - 1 in
      record p {
        cells = update p.cells e (record c {
          strong = n;
          world = if n == 0 then Threads.shut_down X c.world else c.world;
        });
      }

  -- `expect` and the rest of the closure, once a runtime was asked for. `None` stands for a panic.
  abbrev pub started :
      {R : Type 0}
      → (Runtime → Process → R × Process)
      → Result Runtime × Process
      → Option R × Process
  started f (ok rt, p) = let (r, p') = f rt (record p { thread_runtime = some rt }) in (some r, p')
  started f (err e, p) = (none, p)

  abbrev pub using_runtime :
      {R : Type 0}
      → Option ℕ
      → (Runtime → Process → R × Process)
      → Option Runtime
      → Process
      → Option R × Process
  using_runtime available f (some rt) p = let (r, p') = f rt p in (some r, p')
  using_runtime available f none p = started f (new available p)

  -- The thread's runtime is made when it is first asked for.
  unfoldable pub with_thread_local_runtime :
      {R : Type 0} → Option ℕ → (Runtime → Process → R × Process) → Process → Option R × Process
  with_thread_local_runtime available f p = using_runtime available f p.thread_runtime p

  -- The global functions `spawn` and `block_on`.
  unfoldable pub spawn_global : Option ℕ → Future V → Process → Option JoinHandle × Process
  spawn_global available f p = with_thread_local_runtime available (λ rt. spawn rt f) p

  unfoldable pub block_on_global :
      (ℕ → World X → World X) → ℕ → Option ℕ → Future V → Process → Option (Loop V) × Process
  block_on_global others k available f p =
      with_thread_local_runtime available (λ rt. block_on others k rt f) p
