-- ===== src/Runtime/Global/Waits.antt =====
-- The global functions of src/runtime/runtime.rs on one thread: what `spawn` starts, `block_on` waits
-- for.
use luminal.Prelude.{ℕ, ◌+◌, ◌≡◌, Option, some}
use luminal.Crossbeam.{Crossbeam}
use luminal.Task.{Task, JoinHandle, value, joins}
use luminal.World.{World}
use luminal.Worker.{ends}
use luminal.Executor
use luminal.Executor.BlockOn
use luminal.Executor.Threads
use luminal.Runtime
use luminal.Runtime.{Process, Cell}

module _ {V : Type 0} (X : Crossbeam (Task V) V) where
  -- What a spawn and the wait for its handle come to.
  abbrev Waits : Option ℕ → ℕ → V → ℕ → Option JoinHandle × Process X → Type 0
  Waits available' k v e (j, p') =
      (i : JoinHandle) × (j ≡ some i)
      × ((Runtime.block_on_global X (λ d w. w) k available' (joins i value) p').0 ≡ some (ends v))
      × ((Runtime.block_on_global X (λ d w. w) k available' (joins i value) p').1.next_cell ≡ e + 1)
