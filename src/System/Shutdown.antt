-- ===== src/System/Shutdown.antt =====
-- The end of a worker (src/runtime/worker.rs) once the executor is dropped.
pub mod Loads
use mathlib.Core.Path.{subst}
use luminal.Prelude.{
  ℕ, zero, suc, ◌+◌, ◌≤◌, ◌<◌, ◌≡◌, ◌∙◌, ap, sym, if◌then◌else◌, Bool, true, false, Option, none,
  some, List, [], ◌∷◌, All, length, update, update_self, dec_lt, arith,
}
use luminal.Crossbeam.{Crossbeam, Pops}
use luminal.Task.{Task}
use luminal.Task.Poll.{Outcome, returned, panicked}
use luminal.Task.Poll.Keeps.{Keeps}
use luminal.World.{World}
use luminal.JoinHandle.{poll_handle}
use luminal.Executor.{spawn, deliver, abandon, host}
use luminal.Executor.Polls.{poll_task-Keeps}
use luminal.Worker.{
  WorkerThread, Loop, ends, unwound, no_fuel, run_task, and_then, local_task, drain, give_up,
  drop_self,
}
use luminal.Worker.Passes.{run_task-deques}
use luminal.Worker.Invariant.{Runs}
use luminal.Worker.Invariant.Drops.{drop_self-K}
use luminal.Worker.Invariant.Steals.{steal_global-K, scan_round-K}
use luminal.Worker.Invariant.Passes.{drain-K}
use luminal.System.{
  Pc, top, popping, stealing, scanning, stopped, dead, Over, Place, ended, popped, searched,
  advance,
}
use luminal.System.Shutdown.Loads.{load, advance-Falls}

module _ {V : Type 0} (X : Crossbeam (Task V) V) where
  -- A number of steps of a worker. `others k` is what the other threads do before the step that leaves
  -- `k` of them.
  abbrev pub runs : (ℕ → World X → World X) → ℕ → WorkerThread → Place × World X → Place × World X
  runs others zero me s = s
  runs others (suc k) me (p, w) =
      let w' = others k w in runs others k me (advance X me p.pc p.idle_count w')

  load-Over : (me : WorkerThread) (pc : Pc) (w : World X) → load X me pc w ≤ 0 → Over pc
  load-Over me top w h = absurd (omega arith)
  load-Over me (popping b) w h = absurd (omega arith)
  load-Over me stealing w h = absurd (omega arith)
  load-Over me (scanning m i) w h = absurd (omega arith)
  load-Over me stopped w h = tt
  load-Over me dead w h = tt

  pub Over-advance :
      (me : WorkerThread) (pc : Pc) (idle : ℕ) (w : World X)
      → Over pc
      → Over (advance X me pc idle w).0.pc
  unfolding advance
  Over-advance me top idle w h = absurd h
  Over-advance me (popping b) idle w h = absurd h
  Over-advance me stealing idle w h = absurd h
  Over-advance me (scanning m i) idle w h = absurd h
  Over-advance me stopped idle w h = tt
  Over-advance me dead idle w h = tt

  Over-runs :
      (others : ℕ → World X → World X) (k : ℕ) (me : WorkerThread) (s : Place × World X)
      → Over s.0.pc
      → Over (runs others k me s).0.pc
  Over-runs others zero me s h = h
  Over-runs others (suc k) me (p, w) h =
      Over-runs others k me (advance X me p.pc p.idle_count (others k w))
        (Over-advance me p.pc p.idle_count (others k w) h)

  -- More tasks in the local queue are more to do.
  load_mono :
      (me : WorkerThread) (pc : Pc) (w u : World X)
      → length (X.local (u.deques me.worker)) ≤ length (X.local (w.deques me.worker))
      → load X me pc u ≤ load X me pc w
  load_mono me top w u h = omega arith
  load_mono me (popping b) w u h = omega arith
  load_mono me stealing w u h = omega arith
  load_mono me (scanning m i) w u h = omega arith
  load_mono me stopped w u h = omega arith
  load_mono me dead w u h = omega arith

  -- With the flag of the shutdown up, a worker comes to its end, so that it can be joined, whatever the
  -- other threads do between its steps, as long as they leave the flag up and put no task into its
  -- local queue: wherever it stands in its loops, it has stopped or a panic has ended it after `k` steps
  -- of its own. If it is in the loop over its local queue, `k` is the number of tasks there, that of its
  -- stealers and 4; elsewhere less. (`load` says how much.)
  pub runs-Over :
      (others : ℕ → World X → World X) (k : ℕ) (me : WorkerThread) (p : Place) (w : World X)
      → ((l : ℕ) (u : World X) → u.shutdown ≡ true → (others l u).shutdown ≡ true)
      → ((l : ℕ) (u : World X)
          → length (X.local ((others l u).deques me.worker))
            ≤ length (X.local (u.deques me.worker)))
      → w.shutdown ≡ true
      → load X me p.pc w ≤ k
      → Over (runs others k me (p, w)).0.pc
  runs-Over others zero me p w up fewer h le = load-Over me p.pc w le
  runs-Over others (suc k) me p w up fewer h le =
      let u = others k w in
      let less = load_mono me p.pc w u (fewer k w) in
      elim (dec_lt 0 (load X me p.pc u)) [
        | yes pos ↦
            let (h', falls) = advance-Falls X me p.pc p.idle_count u (up k w h) pos in
            runs-Over others k me _ _ up fewer h' (omega arith)
        | no none_left ↦
            Over-runs others k me (advance X me p.pc p.idle_count u)
              (Over-advance me p.pc p.idle_count u (load-Over me p.pc u (omega arith)))
      ]
