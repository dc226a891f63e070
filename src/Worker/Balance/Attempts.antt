-- ===== src/Worker/Balance/Attempts.antt =====
-- The books of an executor under one attempt of a worker to steal (src/runtime/worker.rs).
use luminal.Prelude.{
  ℕ, suc, ◌+◌, ◌<◌, ◌≡◌, refl, Bool, List, length, length-append, total-update, arith, ap, update,
}
use luminal.Crossbeam.{Crossbeam, Steal, Takes, TakesBatch}
use luminal.Task.{Task}
use luminal.Task.Poll.{Poll, ready, pending, Outcome, returned, panicked}
use luminal.World.{World}
use luminal.Executor.{poll_task}
use luminal.Executor.Balance.{backlog, Balanced, backlog-push, poll_task-Balanced}
use luminal.Worker.{
  finish, run_task, found, attempt, give_up, steal_one, steal_global, steal_one_from,
}

module _ {V : Type 0} (X : Crossbeam (Task V) V) where
  -- The books after a call that began with `k` tasks left out: a panic leaves one more out.
  abbrev pub Books : {A : Type 0} → ℕ → ℕ → Outcome A × World X → Type 0
  Books n k (returned _, w) = Balanced X n k w
  Books n k (panicked, w) = Balanced X n (suc k) w

  finish-Books :
      (n k : ℕ) (r : Outcome (Poll (Unit {0})) × Task V × World X)
      → Balanced X n (suc k) r.2
      → Books n k (finish X r)
  unfolding backlog
  finish-Books n k (returned (ready _), t, w) p = omega arith
  finish-Books n k (returned pending, t, w) p = omega (arith, backlog-push X n t w)
  finish-Books n k (panicked, t, w) p = p

  -- A task in hand is put back, or counted, or lost in a panic.
  pub run_task-Books :
      (n k : ℕ) (t : Task V) (w : World X) → Balanced X n (suc k) w → Books n k (run_task X t w)
  unfolding run_task
  run_task-Books n k t w p =
      finish-Books n k (poll_task X t w) (poll_task-Balanced X n (suc k) t w p)

  found-Books : (n k : ℕ) (r : Outcome (Unit {0}) × World X) → Books n k r → Books n k (found X r)
  found-Books n k (returned _, w) p = p
  found-Books n k (panicked, w) p = p

  -- The task that an attempt has taken out of the queues.
  abbrev pub held : Steal (Task V) → ℕ
  held (Steal.success t) = 1
  held Steal.empty = 0
  held Steal.retry = 0

  Takes-length :
      (s : Steal (Task V)) (src src' : List (Task V))
      → Takes s src src'
      → length src ≡ length src' + held s
  Takes-length (Steal.success t) src src' h = omega (arith, ap length h)
  Takes-length Steal.empty src src' h = omega (arith, ap length h.0, ap length h.1)
  Takes-length Steal.retry src src' h = omega (arith, ap length h)

  pub TakesBatch-length :
      (s : Steal (Task V)) (src src' dst dst' : List (Task V))
      → TakesBatch s src src' dst dst'
      → length src + length dst ≡ length src' + length dst' + held s
  TakesBatch-length (Steal.success t) src src' dst dst' (b, e, f) =
      omega (arith, ap length e, ap length f, length-append b src', length-append dst b)
  TakesBatch-length Steal.empty src src' dst dst' h =
      omega (arith, ap length h.0, ap length h.1, ap length h.2)
  TakesBatch-length Steal.retry src src' dst dst' h = omega (arith, ap length h.0, ap length h.1)

  abbrev pub size : X.Worker → ℕ
  size l = length (X.local l)

  -- The three ways in which tasks leave the queues.
  backlog-batch :
      (n d : ℕ) (w : World X) (s : Steal (Task V)) (q : X.Injector) (l : X.Worker)
      → d < n
      → TakesBatch s (X.items w.global_queue) (X.items q) (X.local (w.deques d)) (X.local l)
      → backlog X n w
        ≡ backlog X n (record w { global_queue = q; deques = update w.deques d l }) + held s
  unfolding backlog
  backlog-batch n d w s q l lt h =
      omega (arith, TakesBatch-length s _ _ _ _ h, total-update size w.deques d l n lt)

  backlog-steal :
      (n : ℕ) (w : World X) (s : Steal (Task V)) (q : X.Injector)
      → Takes s (X.items w.global_queue) (X.items q)
      → backlog X n w ≡ backlog X n (record w { global_queue = q }) + held s
  unfolding backlog
  backlog-steal n w s q h = omega (arith, Takes-length s _ _ h)

  pub backlog-deque :
      (n d : ℕ) (w : World X) (l : X.Worker) (k : ℕ)
      → d < n
      → size (w.deques d) ≡ size l + k
      → backlog X n w ≡ backlog X n (record w { deques = update w.deques d l }) + k
  unfolding backlog
  backlog-deque n d w l k lt h = omega (arith, total-update size w.deques d l n lt)

  -- An attempt that took `s` out of the queues of `w` and left `w'`.
  pub attempt-Books :
      (n k : ℕ) (s : Steal (Task V)) (w w' : World X) (retried : World X → Outcome Bool × World X)
      → backlog X n w ≡ backlog X n w' + held s
      → w'.next_task_id ≡ w.next_task_id
      → w'.tasks_processed ≡ w.tasks_processed
      → ((u : World X) → Balanced X n k u → Books n k (retried u))
      → Balanced X n k w
      → Books n k (attempt X s w' retried)
  attempt-Books n k (Steal.success t) w w' retried b i c next p =
      found-Books n k _ (run_task-Books n k t w' (omega arith))
  attempt-Books n k Steal.empty w w' retried b i c next p = omega arith
  attempt-Books n k Steal.retry w w' retried b i c next p = next w' (omega arith)

  steal_one-Books : (n k : ℕ) (w : World X) → Balanced X n k w → Books n k (steal_one X w)
  unfolding steal_one
  steal_one-Books n k w =
      let r = X.steal w.global_queue in
      attempt-Books n k r.0 w (record w { global_queue = r.1 }) (give_up X)
        (backlog-steal n w r.0 r.1 (X.steal_lem w.global_queue)) refl refl (λ u q. q)

  pub steal_global-Books :
      (n k d : ℕ) (w : World X) → d < n → Balanced X n k w → Books n k (steal_global X d w)
  unfolding steal_global
  steal_global-Books n k d w lt =
      let r = X.steal_batch_and_pop w.global_queue (w.deques d) in
      attempt-Books n k r.0 w (record w { global_queue = r.1; deques = update w.deques d r.2 })
        (steal_one X)
        (backlog-batch n d w r.0 r.1 r.2 lt (X.steal_batch_and_pop_lem w.global_queue (w.deques d)))
        refl refl (steal_one-Books n k)

  pub steal_one_from-Books :
      (n k v : ℕ) (w : World X) → v < n → Balanced X n k w → Books n k (steal_one_from X v w)
  unfolding steal_one_from
  steal_one_from-Books n k v w lt =
      let r = X.stealer_steal (w.deques v) in
      attempt-Books n k r.0 w (record w { deques = update w.deques v r.1 }) (give_up X)
        (backlog-deque n v w r.1 (held r.0) lt
          (Takes-length r.0 _ _ (X.stealer_steal_lem (w.deques v))))
        refl refl (λ u q. q)
