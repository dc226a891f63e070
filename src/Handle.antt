-- ===== src/Handle.antt =====
-- src/runtime/handle.rs, with `Runtime::handle` of src/runtime/runtime.rs.
use luminal.Prelude.{ℕ}
use luminal.Crossbeam.{Crossbeam}
use luminal.Task.{JoinHandle, Future, Task}
use luminal.World.{World}
use luminal.Worker.{Loop}
use luminal.Executor
use luminal.Executor.BlockOn
use luminal.Runtime.{Runtime, Process, with_world, share}

-- `Arc<Executor>`: the number of an executor.
pub record Handle : Type 0 where
  pub executor : ℕ

module _ {V : Type 0} (X : Crossbeam (Task V) V) where
  -- `Handle::new`, given an `Arc` that was cloned for it.
  abbrev pub new : ℕ → Handle
  new e = record { executor = e }

  unfoldable pub handle : Runtime → Process X → Handle × Process X
  handle rt p = (new rt.executor, share X rt.executor p)

  unfoldable pub spawn : Handle → Future V → Process X → JoinHandle × Process X
  spawn h f p =
      let (j, w) = Executor.spawn X f (p.cells h.executor).world in (j, with_world X p h.executor w)

  unfoldable pub block_on :
      (ℕ → World X → World X) → ℕ → Handle → Future V → Process X → Loop V × Process X
  block_on others k h f p =
      let (r, w) = BlockOn.block_on X others k f (p.cells h.executor).world in
      (r, with_world X p h.executor w)

  unfoldable pub clone : Handle → Process X → Handle × Process X
  clone h p = (record { executor = h.executor }, share X h.executor p)
