-- ===== src/Worker/Balance.antt =====
-- The books of an executor, of its queues and its counters, under a pass of a worker
-- (src/runtime/worker.rs).
pub mod Attempts
pub mod Steals
use luminal.Prelude.{
  ℕ, zero, suc, ◌+◌, ◌%◌, ◌<◌, ◌≡◌, ◌≢◌, ◌==◌, refl, Bool, true, false, List, Option, none, some,
  length, length-append, total-update, arith, ap, update, inl, inr, Bool-cases, if_both,
}
use luminal.Crossbeam.{Crossbeam, Steal, Takes, TakesBatch, Pops}
use luminal.Task.{Task}
use luminal.Task.Poll.{Poll, ready, pending, Outcome, returned, panicked}
use luminal.World.{World}
use luminal.Executor.{poll_task}
use luminal.Executor.Balance.{backlog, Balanced, backlog-push, poll_task-Balanced}
use luminal.Worker.Wiring.{IsWired, victim}
use luminal.Worker.{
  WorkerThread, Loop, ends, unwound, no_fuel, Pass, stops, finish, run_task, found, attempt,
  give_up, steal_one, steal_global, steal_one_from, steal_from, or_else, steal_at, scan_round, scan,
  steal_work, and_then, local_task, drain, stolen, drained, pass,
}
use luminal.Worker.Balance.Attempts.{Books, run_task-Books, backlog-deque}
use luminal.Worker.Balance.Steals.{steal_work-Books}

module _ {V : Type 0} (X : Crossbeam (Task V) V) where
  -- The same for a loop. Where the fuel is spent nothing is lost.
  abbrev pub LoopBooks : {A : Type 0} → ℕ → ℕ → Loop A × World X → Type 0
  LoopBooks n k (ends _, w) = Balanced X n k w
  LoopBooks n k (unwound, w) = Balanced X n (suc k) w
  LoopBooks n k (no_fuel, w) = Balanced X n k w

  and_then-Books :
      (n k : ℕ) (r : Outcome (Unit {0}) × World X) (rest : World X → Loop Bool × World X)
      → ((u : World X) → Balanced X n k u → LoopBooks n k (rest u))
      → Books X n k r
      → LoopBooks n k (and_then X r rest)
  and_then-Books n k (returned _, w) rest next p = next w p
  and_then-Books n k (panicked, w) rest next p = p

  local_task-Books :
      (n k d : ℕ) (o : Option (Task V)) (b : Bool) (w : World X) (l : X.Worker)
      → d < n
      → Pops o (X.local (w.deques d)) (X.local l)
      → (rest : World X → Loop Bool × World X)
      → ((u : World X) → Balanced X n k u → LoopBooks n k (rest u))
      → Balanced X n k w
      → LoopBooks n k (local_task X o b (record w { deques = update w.deques d l }) rest)
  local_task-Books n k d none b w l lt h rest next p =
      omega (arith, backlog-deque X n d w l 0 lt (omega (arith, ap length h.0, ap length h.1)))
  local_task-Books n k d (some t) b w l lt h rest next p = and_then-Books n k _ rest next (
      run_task-Books X n k t _
        (omega (arith, backlog-deque X n d w l 1 lt (omega (arith, ap length h)))))

  pub drain-Books :
      (n k f d : ℕ) (b : Bool) (w : World X)
      → d < n
      → Balanced X n k w
      → LoopBooks n k (drain X f d b w)
  unfolding drain
  drain-Books n k zero d b w lt p = p
  drain-Books n k (suc f) d b w lt p =
      local_task-Books n k d _ b w _ lt (X.pop_lem (w.deques d)) (drain X f d true)
        (λ u. drain-Books n k f d true u lt) p

  stolen-Books :
      (n k idle : ℕ) (r : Outcome Bool × World X) → Books X n k r → LoopBooks n k (stolen X idle r)
  stolen-Books n k idle (returned b, w) p = p
  stolen-Books n k idle (panicked, w) p = p

  drained-Books :
      (n k : ℕ) (me : WorkerThread) (idle : ℕ) (r : Loop Bool × World X)
      → IsWired n me
      → LoopBooks n k r
      → LoopBooks n k (drained X me idle r)
  drained-Books n k me idle (ends true, w) wired p = p
  drained-Books n k me idle (ends false, w) wired p =
      stolen-Books n k idle (steal_work X me w) (steal_work-Books X n k me w wired p)
  drained-Books n k me idle (unwound, w) wired p = p
  drained-Books n k me idle (no_fuel, w) wired p = p

  -- The same for a pass. One that a panic unwinds ends the worker, whose queue may go with it.
  abbrev pub PassBooks : ℕ → ℕ → Loop Pass × World X → Type 0
  PassBooks n k (ends _, w) = Balanced X n k w
  PassBooks n k (unwound, w) = Unit
  PassBooks n k (no_fuel, w) = Balanced X n k w

  LoopBooks-PassBooks : (n k : ℕ) (r : Loop Pass × World X) → LoopBooks n k r → PassBooks n k r
  LoopBooks-PassBooks n k (ends _, w) p = p
  LoopBooks-PassBooks n k (unwound, w) p = tt
  LoopBooks-PassBooks n k (no_fuel, w) p = p

  -- A pass of a worker that no panic unwinds keeps the balance of its executor, on any fuel: if the
  -- next task id is the number of queued tasks, the count of processed ones and `k` together, modulo
  -- 2^64, then so it is after the pass.
  pub pass-Books :
      (n k f : ℕ) (me : WorkerThread) (idle : ℕ) (w : World X)
      → IsWired n me
      → Balanced X n k w
      → PassBooks n k (pass X f me idle w)
  unfolding pass
  pass-Books n k f me idle w wired p = LoopBooks-PassBooks n k (pass X f me idle w) (
      if_both (LoopBooks n k) w.shutdown (ends stops, w) _ p
        (drained-Books n k me idle _ wired (drain-Books n k f me.worker false w wired.home p)))
