-- ===== src/Executor/BlockOn.antt =====
-- `Executor::block_on` of src/runtime/executor.rs.
pub mod Counting
pub mod Liveness
pub mod Handles
use luminal.Prelude.{ℕ, zero, suc, ◌+◌, ◌%◌, ◌^◌, ltb, if◌then◌else◌, Bool, true, false, update}
use luminal.Crossbeam.{Crossbeam, Steal, TryRecv}
use luminal.Task.{JoinHandle, Future, Task}
use luminal.Task.Poll.{Poll, ready, pending, Outcome, returned, panicked}
use luminal.World.{World}
use luminal.Executor.{poll_task, spawn}
use luminal.Worker.{Loop, ends, unwound, no_fuel}

-- How the blocked thread spends the time until its next round.
pub data Wait : Type 0 where
  busy : Wait
  yield_now : Wait
  sleep_nanos : ℕ → Wait

-- The backoff counter after a round, and the wait.
unfoldable pub back_off : Bool → ℕ → ℕ × Wait
back_off helped backoff_count =
    if helped
    then (0, busy)
    else let n = (backoff_count + 1) % 2 ^ 32 in
      if ltb 1000 n then (0, sleep_nanos 100) else if ltb 100 n then (n, yield_now) else (n, busy)

module _ {V : Type 0} (X : Crossbeam (Task V) V) where
  -- A task that waits goes back to the queue; one that is done is dropped.
  abbrev pub requeue : Outcome (Poll (Unit {0})) × Task V × World X → Outcome (Unit {0}) × World X
  requeue (returned (ready _), t, w) = (returned tt, w)
  requeue (returned pending, t, w) =
      (returned tt, record w { global_queue = X.push w.global_queue t })
  requeue (panicked, t, w) = (panicked, w)

  abbrev pub and_help :
      Outcome (Unit {0}) × World X → (World X → Outcome Bool × World X) → Outcome Bool × World X
  and_help (returned _, w) rest = rest w
  and_help (panicked, w) rest = (panicked, w)

  -- The match on the result of a steal; `rest` is what the loop does after it.
  abbrev pub help_round :
      Steal (Task V)
      → Bool
      → World X
      → (Bool → World X → Outcome Bool × World X)
      → Outcome Bool × World X
  help_round (Steal.success t) helped w rest = and_help (requeue (poll_task X t w)) (rest true)
  help_round Steal.empty helped w rest = (returned helped, w)
  help_round Steal.retry helped w rest = rest helped w

  -- The loop `for _ in 0..4`: `n` rounds are left.
  unfoldable pub help : ℕ → Bool → World X → Outcome Bool × World X
  help zero helped w = (returned helped, w)
  help (suc n) helped w =
      let rest : Bool → World X → Outcome Bool × World X = help n in
      let (s, q) = X.steal w.global_queue in
      help_round s helped (record w { global_queue = q }) rest

  -- One turn of the loop: a result, or a new backoff counter.
  pub data Turn : Type 0 where
    result : V → Turn
    again : ℕ → Wait → Turn

  abbrev pub helped_turn : ℕ → Outcome Bool × World X → Outcome Turn × World X
  helped_turn backoff_count (returned b, w) =
      let (n, p) = back_off b backoff_count in (returned (again n p), w)
  helped_turn backoff_count (panicked, w) = (panicked, w)

  -- The match on what `try_recv` gives.
  abbrev pub turn_on : TryRecv V → ℕ → World X → Outcome Turn × World X
  turn_on (TryRecv.ok v) backoff_count w = (returned (result v), w)
  turn_on TryRecv.empty backoff_count w = helped_turn backoff_count (help 4 false w)
  turn_on TryRecv.disconnected backoff_count w = (panicked, w)

  unfoldable pub turn : JoinHandle → ℕ → World X → Outcome Turn × World X
  turn j backoff_count w =
      let (r, c) = X.try_recv (w.channels j.receiver) in
      turn_on r backoff_count (record w { channels = update w.channels j.receiver c })

  -- What the loop does with a turn; `rest` is the next one.
  abbrev pub after_turn :
      Outcome Turn × World X → (ℕ → World X → Loop V × World X) → Loop V × World X
  after_turn (returned (result v), w) rest = (ends v, w)
  after_turn (returned (again n p), w) rest = rest n w
  after_turn (panicked, w) rest = (unwound, w)

  -- The loop, on fuel. `others k` is what the other threads do while `k` units of fuel are left.
  unfoldable pub wait_for :
      (ℕ → World X → World X) → ℕ → JoinHandle → ℕ → World X → Loop V × World X
  wait_for others zero j n w = (no_fuel, w)
  wait_for others (suc k) j n w =
      let rest : ℕ → World X → Loop V × World X = wait_for others k j in
      after_turn (turn j n (others k w)) rest

  unfoldable pub block_on : (ℕ → World X → World X) → ℕ → Future V → World X → Loop V × World X
  block_on others k f w = let (j, w') = spawn X f w in wait_for others k j 0 w'
