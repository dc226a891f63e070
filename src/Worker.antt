-- ===== src/Worker.antt =====
-- src/runtime/worker.rs, the std version: one worker thread.
pub mod Wiring
pub mod Balance
pub mod StealOrder
pub mod Passes
pub mod Invariant
pub mod NoStd
pub mod Liveness
use luminal.Prelude.{
  ℕ, zero, suc, ◌+◌, ◌%◌, ◌^◌, ◌==◌, ltb, if◌then◌else◌, Bool, true, false, List, [], ◌∷◌, Option,
  none, some, length, update,
}
use luminal.Crossbeam.{Crossbeam, Steal}
use luminal.Task.{Task, new_id}
use luminal.Task.Poll.{Poll, ready, pending, Outcome, returned, panicked}
use luminal.World.{World}
use luminal.Executor.{poll_task}
use luminal.Executor.Drops.{let_go_all, let_go_queue}

-- A deque and the stealers are named by the numbers of deques.
pub record WorkerThread : Type 0 where
  pub id : ℕ
  pub worker : ℕ
  pub stealers : List ℕ

abbrev pub get_elem? : List ℕ → ℕ → Option ℕ
get_elem? [] i = none
get_elem? (x ∷ xs) zero = some x
get_elem? (x ∷ xs) (suc i) = get_elem? xs i

-- How a worker spends the time until its next pass.
pub data Pause : Type 0 where
  spin : Pause
  yield_now : Pause
  sleep_micros : ℕ → Pause

-- The pause after `idle_count` passes in a row without work.
unfoldable pub backoff : ℕ → Pause
backoff idle_count =
    if ltb 100 idle_count
    then if ltb 10000 idle_count
      then sleep_micros 1000
      else if ltb 1000 idle_count
      then sleep_micros 10
      else yield_now
    else if ltb 10 idle_count
    then yield_now
    else spin

-- A loop ends with a result, or a panic unwinds it, or it has used its fuel.
pub data Loop (A : Type 0) : Type 0 where
  ends : A → Loop A
  unwound : Loop A
  no_fuel : Loop A

-- A pass of the main loop: it breaks, or leaves a new idle count and a pause.
pub data Pass : Type 0 where
  stops : Pass
  continues : ℕ → Pause → Pass

module _ {V : Type 0} (X : Crossbeam (Task V) V) where
  -- What is done with a task after its poll. `mem::take` leaves a default task in its place, which
  -- draws an id from the static counter.
  abbrev pub finish : Outcome (Poll (Unit {0})) × Task V × World X → Outcome (Unit {0}) × World X
  finish (returned (ready _), t, w) =
      (returned tt, record w { tasks_processed = (w.tasks_processed + 1) % 2 ^ 64 })
  finish (returned pending, t, w) = (
    returned tt,
    record w { next_id = (new_id w.next_id).1; global_queue = X.push w.global_queue t },
  )
  finish (panicked, t, w) = (panicked, w)

  unfoldable pub run_task : Task V → World X → Outcome (Unit {0}) × World X
  run_task t w = finish (poll_task X t w)

  -- `self.run_task(&mut task); return true;`
  abbrev pub found : Outcome (Unit {0}) × World X → Outcome Bool × World X
  found (returned _, w) = (returned true, w)
  found (panicked, w) = (panicked, w)

  -- The match on the result of a steal. What a lost race leads to is the last argument.
  abbrev pub attempt :
      Steal (Task V) → World X → (World X → Outcome Bool × World X) → Outcome Bool × World X
  attempt (Steal.success t) w retried = found (run_task t w)
  attempt Steal.empty w retried = (returned false, w)
  attempt Steal.retry w retried = retried w

  abbrev pub give_up : World X → Outcome Bool × World X
  give_up w = (returned false, w)

  -- The global queue: a batch, and a single task if the race for the batch is lost.
  unfoldable pub steal_one : World X → Outcome Bool × World X
  steal_one w =
      let (s, q) = X.steal w.global_queue in attempt s (record w { global_queue = q }) give_up

  unfoldable pub steal_global : ℕ → World X → Outcome Bool × World X
  steal_global d w =
      let (s, q, l) = X.steal_batch_and_pop w.global_queue (w.deques d) in
      attempt s (record w { global_queue = q; deques = update w.deques d l }) steal_one

  -- One other deque `v`: a batch into the deque `d`, and a single task if the race is lost.
  unfoldable pub steal_one_from : ℕ → World X → Outcome Bool × World X
  steal_one_from v w =
      let (s, m) = X.stealer_steal (w.deques v) in
      attempt s (record w { deques = update w.deques v m }) give_up

  unfoldable pub steal_from : ℕ → ℕ → World X → Outcome Bool × World X
  steal_from v d w =
      let (s, m, l) = X.stealer_batch_and_pop (w.deques v) (w.deques d) in
      attempt s (record w { deques = update (update w.deques v m) d l }) (steal_one_from v)

  -- An early `return true`; otherwise the search goes on.
  abbrev pub or_else :
      Outcome Bool × World X → (World X → Outcome Bool × World X) → Outcome Bool × World X
  or_else (returned true, w) rest = (returned true, w)
  or_else (returned false, w) rest = rest w
  or_else (panicked, w) rest = (panicked, w)

  -- `&self.stealers[idx]`: an index out of range panics.
  abbrev pub steal_at : Option ℕ → ℕ → World X → Outcome Bool × World X
  steal_at none d w = (panicked, w)
  steal_at (some v) d w = steal_from v d w

  -- The body of the loop over the stealers, in its round `i`; `rest` is what follows.
  abbrev pub scan_round :
      WorkerThread → ℕ → (World X → Outcome Bool × World X) → World X → Outcome Bool × World X
  scan_round me i rest w =
      let idx = (me.id % length me.stealers + i) % length me.stealers in
      if idx == me.id
      then rest w
      else or_else (steal_at (get_elem? me.stealers idx) me.worker w) rest

  -- The loop `for i in 0..self.stealers.len()`, from `i` on: `n` rounds are left.
  unfoldable pub scan : WorkerThread → ℕ → ℕ → World X → Outcome Bool × World X
  scan me zero i w = (returned false, w)
  scan me (suc n) i w =
      let rest : World X → Outcome Bool × World X = scan me n (i + 1) in scan_round me i rest w

  unfoldable pub steal_work : WorkerThread → World X → Outcome Bool × World X
  steal_work me w = or_else (steal_global me.worker w) (scan me (length me.stealers) 0)

  -- What follows the run of a local task.
  abbrev pub and_then :
      Outcome (Unit {0}) × World X → (World X → Loop Bool × World X) → Loop Bool × World X
  and_then (returned _, w) rest = rest w
  and_then (panicked, w) rest = (unwound, w)

  -- The match of `while let Some(mut task)`; `found_work` is the value so far.
  abbrev pub local_task :
      Option (Task V) → Bool → World X → (World X → Loop Bool × World X) → Loop Bool × World X
  local_task none found_work w rest = (ends found_work, w)
  local_task (some t) found_work w rest = and_then (run_task t w) rest

  abbrev pub pop_round : ℕ → Bool → World X → (World X → Loop Bool × World X) → Loop Bool × World X
  pop_round d found_work w rest =
      let (o, l) = X.pop (w.deques d) in
      local_task o found_work (record w { deques = update w.deques d l }) rest

  -- The loop `while let Some(mut task) = self.worker.pop()`.
  unfoldable pub drain : ℕ → ℕ → Bool → World X → Loop Bool × World X
  drain zero d found_work w = (no_fuel, w)
  drain (suc n) d found_work w =
      let rest : World X → Loop Bool × World X = drain n d true in pop_round d found_work w rest

  -- The end of a pass: `found_work` says whether there was anything to do.
  abbrev pub pause : Bool → ℕ → Pass
  pause found_work idle_count =
      if found_work
      then continues idle_count spin
      else let n = (idle_count + 1) % 2 ^ 32 in continues n (backoff n)

  -- The steal after a local queue that was empty from the start.
  abbrev pub stolen : ℕ → Outcome Bool × World X → Loop Pass × World X
  stolen idle_count (returned b, w) = (ends (pause b idle_count), w)
  stolen idle_count (panicked, w) = (unwound, w)

  -- A pass that ran local tasks has set the idle count to 0, and does not steal.
  abbrev pub drained : WorkerThread → ℕ → Loop Bool × World X → Loop Pass × World X
  drained me idle_count (ends true, w) = (ends (pause true 0), w)
  drained me idle_count (ends false, w) = stolen idle_count (steal_work me w)
  drained me idle_count (unwound, w) = (unwound, w)
  drained me idle_count (no_fuel, w) = (no_fuel, w)

  -- One pass of `loop` in `run`, with fuel for the local queue. A panic leaves what it finds: it is `run`
  -- that drops `self` then.
  unfoldable pub pass : ℕ → WorkerThread → ℕ → World X → Loop Pass × World X
  pass fuel me idle_count w =
      if w.shutdown then (ends stops, w) else drained me idle_count (drain fuel me.worker false w)

  -- `self` is dropped when `run` returns or is unwound: its fields go in their order.
  unfoldable pub drop_self : WorkerThread → World X → World X
  drop_self me w = let_go_queue X (let_go_all X (me.worker ∷ me.stealers) w)

  -- What `loop` does with a pass; `rest` is the next one.
  abbrev pub after_pass :
      WorkerThread
      → Loop Pass × World X
      → (ℕ → World X → Loop (Unit {0}) × World X)
      → Loop (Unit {0}) × World X
  after_pass me (ends stops, w) rest = (ends tt, drop_self me w)
  after_pass me (ends (continues idle_count p), w) rest = rest idle_count w
  after_pass me (unwound, w) rest = (unwound, drop_self me w)
  after_pass me (no_fuel, w) rest = (no_fuel, w)

  -- `run`, with fuel for the passes and for the local queue in each, while the other threads rest.
  unfoldable pub run : ℕ → ℕ → WorkerThread → ℕ → World X → Loop (Unit {0}) × World X
  run zero fuel me idle_count w = (no_fuel, w)
  run (suc n) fuel me idle_count w =
      let rest : ℕ → World X → Loop (Unit {0}) × World X = run n fuel me in
      after_pass me (pass fuel me idle_count w) rest
