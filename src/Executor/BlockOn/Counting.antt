-- ===== src/Executor/BlockOn/Counting.antt =====
-- What `Executor::block_on` counts: its own backoff, and no task.
use luminal.Prelude.{ℕ, zero, suc, ◌≤◌, ◌<◌, ◌≡◌, refl, Bool, true, false}
use luminal.Crossbeam.{Crossbeam, Steal, TryRecv}
use luminal.Task.{JoinHandle, Future, Task}
use luminal.Task.Poll.{Poll, ready, pending, Outcome, returned, panicked}
use luminal.Task.Poll.Keeps.{Keeps}
use luminal.World.{World}
use luminal.JoinHandle.{poll_handle}
use luminal.Executor.{spawn, deliver, abandon, host}
use luminal.Executor.Polls.{poll_task-Keeps}
use luminal.Worker.{Loop}
use luminal.Executor.BlockOn.{
  busy, yield_now, sleep_nanos, requeue, and_help, help_round, help, Turn, result, again,
  helped_turn, turn_on, turn, after_turn, wait_for, block_on,
}

module _ {V : Type 0} (X : Crossbeam (Task V) V) where
  abbrev Counts : ℕ → World X → Type 0
  Counts n w = w.tasks_processed ≡ n

  host-Counts : (n : ℕ) → Keeps (host X) (Counts n)
  unfolding spawn poll_handle deliver abandon
  host-Counts n = record {
    spawn_keeps = λ f w p. p;
    join_keeps = λ j w p. p;
    deliver_keeps = λ c v w p. p;
    abandon_keeps = λ c w p. p;
  }

  requeue-Counts :
      (n : ℕ) (r : Outcome (Poll (Unit {0})) × Task V × World X)
      → Counts n r.2
      → Counts n (requeue X r).1
  requeue-Counts n (returned (ready _), t, w) p = p
  requeue-Counts n (returned pending, t, w) p = p
  requeue-Counts n (panicked, t, w) p = p

  and_help-Counts :
      (n : ℕ) (r : Outcome (Unit {0}) × World X) (rest : World X → Outcome Bool × World X)
      → ((u : World X) → Counts n u → Counts n (rest u).1)
      → Counts n r.1
      → Counts n (and_help X r rest).1
  and_help-Counts n (returned _, w) rest next p = next w p
  and_help-Counts n (panicked, w) rest next p = p

  help_round-Counts :
      (n : ℕ) (s : Steal (Task V)) (b : Bool) (w : World X)
      → (rest : Bool → World X → Outcome Bool × World X)
      → ((c : Bool) (u : World X) → Counts n u → Counts n (rest c u).1)
      → Counts n w
      → Counts n (help_round X s b w rest).1
  help_round-Counts n (Steal.success t) b w rest next p =
      and_help-Counts n _ (rest true) (next true)
        (requeue-Counts n _ (poll_task-Keeps X (Counts n) (host-Counts n) (λ u h q. q) t w p))
  help_round-Counts n Steal.empty b w rest next p = p
  help_round-Counts n Steal.retry b w rest next p = next b w p

  help-Counts : (n k : ℕ) (b : Bool) (w : World X) → Counts n w → Counts n (help X k b w).1
  unfolding help
  help-Counts n zero b w p = p
  help-Counts n (suc k) b w p =
      help_round-Counts n (X.steal w.global_queue).0 b _ (help X k) (help-Counts n k) p

  helped_turn-Counts :
      (n m : ℕ) (r : Outcome Bool × World X) → Counts n r.1 → Counts n (helped_turn X m r).1
  helped_turn-Counts n m (returned b, w) p = p
  helped_turn-Counts n m (panicked, w) p = p

  turn_on-Counts :
      (n m : ℕ) (r : TryRecv V) (w : World X) → Counts n w → Counts n (turn_on X r m w).1
  turn_on-Counts n m (TryRecv.ok v) w p = p
  turn_on-Counts n m TryRecv.empty w p = helped_turn-Counts n m _ (help-Counts n 4 false w p)
  turn_on-Counts n m TryRecv.disconnected w p = p

  after_turn-Counts :
      (n : ℕ) (r : Outcome (Turn X) × World X) (rest : ℕ → World X → Loop V × World X)
      → ((m : ℕ) (u : World X) → Counts n u → Counts n (rest m u).1)
      → Counts n r.1
      → Counts n (after_turn X r rest).1
  after_turn-Counts n (returned (result v), w) rest next p = p
  after_turn-Counts n (returned (again m q), w) rest next p = next m w p
  after_turn-Counts n (panicked, w) rest next p = p

  wait_for-Counts :
      (n k : ℕ) (others : ℕ → World X → World X)
      → ((i : ℕ) (u : World X) → Counts n u → Counts n (others i u))
      → (j : JoinHandle) (m : ℕ) (w : World X) → Counts n w
      → Counts n (wait_for X others k j m w).1
  unfolding wait_for turn
  wait_for-Counts n zero others idle j m w p = p
  wait_for-Counts n (suc k) others idle j m w p =
      after_turn-Counts n _ (wait_for X others k j) (wait_for-Counts n k others idle j)
        (turn_on-Counts n m _ _ (idle k w p))

  -- A call of `block_on` leaves the count of processed tasks as it was, however many tasks it runs
  -- to their end, unless other threads change the count meanwhile.
  pub block_on-tasks_processed :
      (others : ℕ → World X → World X)
      → ((i n : ℕ) (u : World X) → u.tasks_processed ≡ n → (others i u).tasks_processed ≡ n)
      → (k : ℕ) (f : Future V) (w : World X)
      → (block_on X others k f w).1.tasks_processed ≡ w.tasks_processed
  unfolding block_on spawn
  block_on-tasks_processed others idle k f w =
      wait_for-Counts w.tasks_processed k others (λ i. idle i w.tasks_processed) _ 0 _ refl

  abbrev pub Bounded : Outcome (Turn X) → Type 0
  Bounded (returned (result v)) = Unit
  Bounded (returned (again n busy)) = n ≤ 100
  Bounded (returned (again n yield_now)) = (100 < n) × (n ≤ 1000)
  Bounded (returned (again n (sleep_nanos t))) = (n ≡ 0) × (t ≡ 100)
  Bounded panicked = Unit
