-- ===== src/Executor/Threads.antt =====
-- `ExecutorInner::new` and `drop` of src/runtime/executor.rs: the workers of an executor and the
-- stealers that each of them gets. That the system starts every thread is taken for granted.
use luminal.Prelude.{
  ℕ, zero, suc, ◌+◌, true, false, List, [], ◌∷◌, ◌++◌, Option, none, some, update,
}
use luminal.Crossbeam.{Crossbeam}
use luminal.Task.{Task}
use luminal.Waker.{Heap}
use luminal.World.{World}
use luminal.Worker.{WorkerThread}

-- `std::thread::available_parallelism().map(…).unwrap_or(4)`, for what the system answers.
unfoldable pub num_workers : Option ℕ → ℕ
num_workers none = 4
num_workers (some n) = n

module _ {V : Type 0} (X : Crossbeam (Task V) V) where
  -- One more stealer of each deque.
  abbrev pub cloned : List ℕ → (ℕ → ℕ) → ℕ → ℕ
  cloned [] holders = holders
  cloned (d ∷ l) holders = cloned l (update holders d (holders d + 1))

  -- The loop over the workers, from `i` on: `n` are left, and `stealers` lists those so far.
  -- The list itself goes at the end of `new`, and does not count.
  unfoldable pub start_workers : ℕ → ℕ → List ℕ → World X → List WorkerThread × World X
  start_workers zero i stealers w = ([], w)
  start_workers (suc n) i stealers w =
      let stealers' = stealers ++ i ∷ [] in
      let (rest, w') = start_workers n (i + 1) stealers' (record w {
        deques = update w.deques i X.new_fifo;
        holders = cloned stealers' (update w.holders i 1);
        queue_holders = w.queue_holders + 1;
      }) in
      (record { id = i; worker = i; stealers = stealers' } ∷ rest, w')

  -- The deques beyond the workers' stand for none. The static counter and the heap of wakers are the
  -- process's, and are there before.
  abbrev pub fresh : ℕ → Heap → World X
  fresh next_id wakers = record {
    global_queue = X.new;
    shutdown = false;
    next_task_id = 1;
    tasks_processed = 0;
    deques = λ _. X.new_fifo;
    channels = λ _. X.unbounded;
    next_channel = 0;
    holders = λ _. 0;
    queue_holders = 1;
    next_id = next_id;
    wakers = wakers;
  }

  unfoldable pub new : Option ℕ → ℕ → Heap → List WorkerThread × World X
  new available next_id wakers = start_workers (num_workers available) 0 [] (fresh next_id wakers)

  -- `drop` raises the flag, and joins the workers. What goes when they have ended is in System.
  unfoldable pub shut_down : World X → World X
  shut_down w = record w { shutdown = true }
