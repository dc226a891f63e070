-- ===== src/Executor/Balance.antt =====
-- The books of an executor: the tasks that wait, the tasks counted as processed, and the ids given
-- out.
use luminal.Prelude.{ℕ, ◌+◌, ◌%◌, ◌^◌, ◌≡◌, [], ◌∷◌, length, length-append, total, arith, ap}
use luminal.Crossbeam.{Crossbeam}
use luminal.Task.{Task}
use luminal.Task.Poll.Keeps.{Keeps}
use luminal.World.{World}
use luminal.JoinHandle.{poll_handle}
use luminal.Executor.{spawn, deliver, abandon, host, poll_task}
use luminal.Executor.Polls.{poll_task-Keeps}

module _ {V : Type 0} (X : Crossbeam (Task V) V) where
  -- The tasks in the global queue and in the first `n` deques.
  unfoldable pub backlog : ℕ → World X → ℕ
  backlog n w = length (X.items w.global_queue) + total (λ d. length (X.local d)) n w.deques

  -- All but `k` of the ids given out belong to tasks that wait or are counted as processed. The two
  -- counters are 64 bits wide. The first id is 1, so that `k` is 1 more than the tasks left out.
  abbrev pub Balanced : ℕ → ℕ → World X → Type 0
  Balanced n k w = w.next_task_id ≡ (backlog n w + w.tasks_processed + k) % 2 ^ 64

  pub host-Balanced : (n k : ℕ) → Keeps (host X) (Balanced n k)
  unfolding spawn poll_handle deliver abandon backlog
  host-Balanced n k = record {
    spawn_keeps = λ f w p. omega (
      arith,
      ap length (X.items-push w.global_queue _),
      length-append (X.items w.global_queue) (_ ∷ []),
      p,
    );
    join_keeps = λ j w p. p;
    deliver_keeps = λ c v w p. p;
    abandon_keeps = λ c w p. p;
  }

  pub poll_task-Balanced :
      (n k : ℕ) (t : Task V) (w : World X) → Balanced n k w → Balanced n k (poll_task X t w).2
  unfolding backlog
  poll_task-Balanced n k = poll_task-Keeps X (Balanced n k) (host-Balanced n k) (λ w h p. p)

  -- A new entry of the global queue.
  pub backlog-push :
      (n : ℕ) (t : Task V) (w : World X)
      → backlog n (record w { global_queue = X.push w.global_queue t }) ≡ backlog n w + 1
  unfolding backlog
  backlog-push n t w = omega (
    arith,
    ap length (X.items-push w.global_queue t),
    length-append (X.items w.global_queue) (t ∷ []),
  )
