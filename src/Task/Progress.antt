-- ===== src/Task/Progress.antt =====
-- What polls of tasks that come to an end need of their runtime: `Store` is met by both executors and
-- by a worker (src/runtime/executor.rs, src/runtime/simple_executor.rs, src/runtime/worker.rs).
pub mod Spends
pub mod Settles
pub mod Rounds
pub mod Without
use luminal.Prelude.{ℕ, suc, ◌≤◌, ◌<◌, ◌≡◌, ◌≢◌, List, [], ◌∷◌, ◌++◌, length}
use luminal.Task.{TaskId, Future, wrapped, Task, new_task}
use luminal.Task.Poll.{Host}

-- The queued tasks, the channel that comes next, and what a channel holds: nothing, while its sender
-- exists, or one result. `Fits n` says that the queue has room
-- for `n` tasks, and `requeue` puts a task back.
pub record Store {V W : Type 0} (h : Host V W) : Type 1 where
  pub tasks : W → List (Task V)
  pub next : W → ℕ
  pub Waits : ℕ → W → Type 0
  pub Has : ℕ → V → W → Type 0
  pub Fits : ℕ → Type 0
  pub requeue : Task V → W → W
  pub fits_less : (m n : ℕ) → m ≤ n → Fits n → Fits m
  pub spawn_tasks :
      (f : Future V) (w : W)
      → Fits (suc (length (tasks w)))
      → (id : TaskId) × (tasks (h.spawn f w).1 ≡ tasks w ++ new_task id (wrapped (next w) f) ∷ [])
  pub spawn_next : (f : Future V) (w : W) → next w < next (h.spawn f w).1
  pub spawn_fresh : (f : Future V) (w : W) → Waits (next w) (h.spawn f w).1
  pub spawn_waits :
      (f : Future V) (w : W) (c : ℕ) → c < next w → Waits c w → Waits c (h.spawn f w).1
  pub spawn_has :
      (f : Future V) (w : W) (c : ℕ) (v : V) → c < next w → Has c v w → Has c v (h.spawn f w).1
  pub deliver_tasks : (d : ℕ) (u : V) (w : W) → tasks (h.deliver d u w) ≡ tasks w
  pub deliver_next : (d : ℕ) (u : V) (w : W) → next (h.deliver d u w) ≡ next w
  pub deliver_self : (c : ℕ) (v : V) (w : W) → Waits c w → Has c v (h.deliver c v w)
  pub deliver_waits : (d c : ℕ) (u : V) (w : W) → d ≢ c → Waits c w → Waits c (h.deliver d u w)
  pub deliver_has : (d c : ℕ) (u v : V) (w : W) → d ≢ c → Has c v w → Has c v (h.deliver d u w)
  pub requeue_tasks :
      (t : Task V) (w : W) → Fits (suc (length (tasks w))) → tasks (requeue t w) ≡ tasks w ++ t ∷ []
  pub requeue_next : (t : Task V) (w : W) → next (requeue t w) ≡ next w
  pub requeue_waits : (t : Task V) (c : ℕ) (w : W) → Waits c w → Waits c (requeue t w)
  pub requeue_has : (t : Task V) (c : ℕ) (v : V) (w : W) → Has c v w → Has c v (requeue t w)
