-- ===== src/Worker/Passes.antt =====
-- A pass of a worker's main loop ends: how, and what it leaves behind.
use luminal.Prelude.{
  ℕ, zero, suc, ◌<◌, ◌≡◌, ◌∙◌, refl, ap, Bool, true, false, [], Option, none, some, length, arith,
  update, update_self, if◌then◌else◌,
}
use luminal.Crossbeam.{Crossbeam, Pops}
use luminal.Task.{Task}
use luminal.Task.Poll.{Poll, ready, pending, Outcome, returned, panicked}
use luminal.Task.Poll.Keeps.{Keeps}
use luminal.World.{World}
use luminal.JoinHandle.{poll_handle}
use luminal.Executor.{spawn, deliver, abandon, host, poll_task}
use luminal.Executor.Polls.{poll_task-Keeps}
use luminal.Worker.{
  WorkerThread, Loop, ends, unwound, no_fuel, Pass, stops, continues, finish, run_task, steal_work,
  and_then, local_task, drain, stolen, drained, pass,
}

module _ {V : Type 0} (X : Crossbeam (Task V) V) where
  host-deques : (ds : ℕ → X.Worker) → Keeps (host X) (λ w. w.deques ≡ ds)
  unfolding spawn poll_handle deliver abandon
  host-deques ds = record {
    spawn_keeps = λ f w p. p;
    join_keeps = λ j w p. p;
    deliver_keeps = λ c v w p. p;
    abandon_keeps = λ c w p. p;
  }

  finish-deques :
      (r : Outcome (Poll (Unit {0})) × Task V × World X) → (finish X r).1.deques ≡ r.2.deques
  finish-deques (returned (ready _), t, w) = refl
  finish-deques (returned pending, t, w) = refl
  finish-deques (panicked, t, w) = refl

  -- A task that runs leaves the deques of the workers alone.
  pub run_task-deques : (t : Task V) (w : World X) → (run_task X t w).1.deques ≡ w.deques
  unfolding run_task
  run_task-deques t w =
      finish-deques (poll_task X t w)
      ∙ poll_task-Keeps X (λ u. u.deques ≡ w.deques) (host-deques w.deques) (λ u h p. p) t w refl

  -- How a loop over the local queue `d` ends: not for want of fuel, and with the queue empty unless
  -- a task has panicked.
  abbrev pub Empties : ℕ → Loop Bool × World X → Type 0
  Empties d (ends _, w) = X.local (w.deques d) ≡ []
  Empties d (unwound, w) = Unit
  Empties d (no_fuel, w) = ⊥

  and_then-Empties :
      (d : ℕ) (r : Outcome (Unit {0}) × World X) (rest : World X → Loop Bool × World X)
      → Empties d (rest r.1)
      → Empties d (and_then X r rest)
  and_then-Empties d (returned _, w) rest p = p
  and_then-Empties d (panicked, w) rest p = tt

  local_task-Empties :
      (f d : ℕ) (o : Option (Task V)) (b : Bool) (w : World X) (l : X.Worker)
      → Pops o (X.local (w.deques d)) (X.local l)
      → (rest : World X → Loop Bool × World X)
      → ((u : World X) → length (X.local (u.deques d)) < f → Empties d (rest u))
      → length (X.local (w.deques d)) < suc f
      → Empties d (local_task X o b (record w { deques = update w.deques d l }) rest)
  local_task-Empties f d none b w l p rest next h = rw (ap X.local (update_self w.deques d l)) (p.1)
  local_task-Empties f d (some t) b w l p rest next h =
      and_then-Empties d _ rest (next _ (omega (arith, kept, ap length p)))
    where
      w' : World X
      w' = record w { deques = update w.deques d l }

      kept : length (X.local ((run_task X t w').1.deques d)) ≡ length (X.local l)
      kept =
          ap (λ ds. length (X.local (ds d))) (run_task-deques t w')
          ∙ ap (λ m. length (X.local m)) (update_self w.deques d l)

  -- The loop over the local queue ends if its fuel is more than the number of tasks there.
  pub drain-Empties :
      (f d : ℕ) (b : Bool) (w : World X)
      → length (X.local (w.deques d)) < f
      → Empties d (drain X f d b w)
  unfolding drain
  drain-Empties zero d b w h = absurd (omega arith)
  drain-Empties (suc f) d b w h =
      local_task-Empties f d _ b w _ (X.pop_lem (w.deques d)) (drain X f d true)
        (drain-Empties f d true) h

  -- The last pass of a worker leaves the state `w` alone; another one leads to the next, or a panic
  -- unwinds it. The argument says which of the two it is.
  abbrev pub Passes : Bool → World X → Loop Pass × World X → Type 0
  Passes true w r = r ≡ (ends stops, w)
  Passes false w (ends stops, w') = ⊥
  Passes false w (ends (continues n p), w') = Unit
  Passes false w (unwound, w') = Unit
  Passes false w (no_fuel, w') = ⊥

  stolen-Passes :
      (idle : ℕ) (w : World X) (r : Outcome Bool × World X) → Passes false w (stolen X idle r)
  stolen-Passes idle w (returned true, u) = tt
  stolen-Passes idle w (returned false, u) = tt
  stolen-Passes idle w (panicked, u) = tt

  drained-Passes :
      (me : WorkerThread) (idle : ℕ) (w : World X) (r : Loop Bool × World X)
      → Empties me.worker r
      → Passes false w (drained X me idle r)
  drained-Passes me idle w (ends true, u) p = tt
  drained-Passes me idle w (ends false, u) p = stolen-Passes idle w (steal_work X me u)
  drained-Passes me idle w (unwound, u) p = tt
  drained-Passes me idle w (no_fuel, u) p = absurd p

  -- A pass of a worker, on more fuel than tasks are in its local queue, does not run out of fuel. It
  -- stops the worker if the flag of the shutdown is up, and then changes nothing; if the flag is down
  -- it does not stop the worker: it leads to the next pass, or a panic unwinds it.
  pub pass-Passes :
      (f : ℕ) (me : WorkerThread) (idle : ℕ) (w : World X)
      → length (X.local (w.deques me.worker)) < f
      → Passes w.shutdown w (pass X f me idle w)
  unfolding pass
  pass-Passes f me idle w h = flag w.shutdown (drain-Empties f me.worker false w h)
    where
      flag :
          (b : Bool)
          → Empties me.worker (drain X f me.worker false w)
          → Passes b w
              (if b then (ends stops, w) else drained X me idle (drain X f me.worker false w))
      flag true p = refl
      flag false p = drained-Passes me idle w (drain X f me.worker false w) p
