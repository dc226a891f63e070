-- ===== src/Executor/Drops.antt =====
-- What is dropped with the last owner of a queue: the deque of a worker lives as long as its `Worker` or
-- one of its stealers (src/runtime/worker.rs), the global queue as long as one of the references to it
-- that the workers and `ExecutorInner` have (src/runtime/executor.rs). A queue that goes drops its
-- tasks, and with them the senders of their results.
use luminal.Prelude.{ℕ, ◌-◌, ◌==◌, if◌then◌else◌, List, [], ◌∷◌, update}
use luminal.Crossbeam.{Crossbeam}
use luminal.Task.{BoxFuture, wrapped, unit, completed, Task}
use luminal.World.{World}
use luminal.Executor.{abandon}

module _ {V : Type 0} (X : Crossbeam (Task V) V) where
  abbrev pub discard : BoxFuture V → World X → World X
  discard (wrapped c f) w = abandon X c w
  discard unit w = w
  discard completed w = w

  unfoldable pub discard_all : List (Task V) → World X → World X
  discard_all [] w = w
  discard_all (t ∷ l) w = let w' = discard t.future w in discard_all l w'

  -- A `Worker` or `Stealer` of the deque `d` is dropped.
  unfoldable pub let_go : ℕ → World X → World X
  let_go d w =
      let n = w.holders d - 1 in
      let u : World X = record w { holders = update w.holders d n } in
      if n == 0
      then discard_all (X.local (w.deques d)) (record u { deques = update w.deques d X.new_fifo })
      else u

  unfoldable pub let_go_all : List ℕ → World X → World X
  let_go_all [] w = w
  let_go_all (d ∷ l) w = let w' = let_go d w in let_go_all l w'

  -- A reference to the global queue is dropped.
  unfoldable pub let_go_queue : World X → World X
  let_go_queue w =
      let n = w.queue_holders - 1 in
      let u : World X = record w { queue_holders = n } in
      if n == 0 then discard_all (X.items w.global_queue) (record u { global_queue = X.new }) else u
