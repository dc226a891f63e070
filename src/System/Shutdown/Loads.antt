-- ===== src/System/Shutdown/Loads.antt =====
-- How far a worker (src/runtime/worker.rs) is from its end, once the flag of the shutdown is up.
use mathlib.Core.Path.{subst}
use luminal.Prelude.{
  ℕ, zero, suc, ◌+◌, ◌<◌, ◌≡◌, ◌∙◌, ap, sym, if◌then◌else◌, Bool, true, false, Option, none, some,
  List, [], ◌∷◌, All, length, update, update_self, arith,
}
use luminal.Crossbeam.{Crossbeam, Pops}
use luminal.Task.{Task}
use luminal.Task.Poll.{Outcome, returned, panicked}
use luminal.Task.Poll.Keeps.{Keeps}
use luminal.World.{World}
use luminal.JoinHandle.{poll_handle}
use luminal.Executor.{spawn, deliver, abandon, host}
use luminal.Executor.Polls.{poll_task-Keeps}
use luminal.Worker.{
  WorkerThread, Loop, ends, unwound, no_fuel, run_task, and_then, local_task, drain, give_up,
  drop_self,
}
use luminal.Worker.Passes.{run_task-deques}
use luminal.Worker.Invariant.{Runs}
use luminal.Worker.Invariant.Drops.{drop_self-K}
use luminal.Worker.Invariant.Steals.{steal_global-K, scan_round-K}
use luminal.Worker.Invariant.Passes.{drain-K}
use luminal.System.{
  Pc, top, popping, stealing, scanning, stopped, dead, Place, ended, popped, searched, advance,
}

module _ {V : Type 0} (X : Crossbeam (Task V) V) where
  abbrev Any : Task V → Type 0
  Any t = Unit

  abbrev pub Down : World X → Type 0
  Down w = w.shutdown ≡ true

  all-Any : (l : List (Task V)) → All Any l
  all-Any [] = tt
  all-Any (t ∷ l) = (tt, all-Any l)

  host-Down : Keeps (host X) Down
  unfolding spawn poll_handle deliver abandon
  host-Down = record {
    spawn_keeps = λ f w p. p;
    join_keeps = λ j w p. p;
    deliver_keeps = λ c v w p. p;
    abandon_keeps = λ c w p. p;
  }

  -- Nothing that a worker does takes the flag down.
  Down-Runs : Runs X Any Down
  Down-Runs = record {
    stocked = λ w p. record { waiting = all-Any _; assigned = λ d. all-Any _ };
    restocked = λ w q ds p a b. p;
    counted = λ w n i p. p;
    polled = λ t w g p. (tt, poll_task-Keeps X Down host-Down (λ u h q. q) t w p);
  }

  held-Down :
      (w : World X) (h : ℕ → ℕ) (q : ℕ)
      → Down w
      → Down (record w { holders = h; queue_holders = q })
  held-Down w h q p = p

  drop_self-Down : (me : WorkerThread) (w : World X) → Down w → Down (drop_self X me w)
  drop_self-Down = drop_self-K X Any Down Down-Runs host-Down.abandon_keeps held-Down

  -- How many steps a worker has left at most, when the flag is up.
  abbrev pub load : WorkerThread → Pc → World X → ℕ
  load me top w = 1
  load me (popping b) w = length (X.local (w.deques me.worker)) + length me.stealers + 4
  load me stealing w = length me.stealers + 3
  load me (scanning m i) w = m + 2
  load me stopped w = 0
  load me dead w = 0

  -- The flag is up still, and there are fewer steps left.
  abbrev pub Falls : WorkerThread → ℕ → Place × World X → Type 0
  Falls me n (p, w) = (Down w) × (load me p.pc w < n)

  -- A round of the loop over the local queue `d` that goes on has taken a task out of it.
  abbrev Shorter : ℕ → ℕ → Loop Bool × World X → Type 0
  Shorter d n (ends _, w) = Unit
  Shorter d n (unwound, w) = Unit
  Shorter d n (no_fuel, w) = length (X.local (w.deques d)) < n

  and_then-Shorter :
      (d n : ℕ) (r : Outcome (Unit {0}) × World X)
      → length (X.local (r.1.deques d)) < n
      → Shorter d n (and_then X r (λ w. (no_fuel, w)))
  and_then-Shorter d n (returned _, w) h = h
  and_then-Shorter d n (panicked, w) h = tt

  local_task-Shorter :
      (d : ℕ) (o : Option (Task V)) (b : Bool) (w : World X) (l : X.Worker)
      → Pops o (X.local (w.deques d)) (X.local l)
      → Shorter d
          (length (X.local (w.deques d)))
          (local_task X o b (record w { deques = update w.deques d l }) (λ u. (no_fuel, u)))
  local_task-Shorter d none b w l p = tt
  local_task-Shorter d (some t) b w l p =
      let w' : World X = record w { deques = update w.deques d l } in
      let kept =
        ap (λ ds. length (X.local (ds d))) (run_task-deques X t w')
        ∙ ap (λ m. length (X.local m)) (update_self w.deques d l) in
      and_then-Shorter d _ (run_task X t w') (omega (arith, kept, ap length p))

  drain-Shorter :
      (d : ℕ) (b : Bool) (w : World X) → Shorter d (length (X.local (w.deques d))) (drain X 1 d b w)
  unfolding drain
  drain-Shorter d b w = local_task-Shorter d _ b w _ (X.pop_lem (w.deques d))

  popped-Falls :
      (me : WorkerThread) (idle n : ℕ) (r : Loop Bool × World X)
      → Down r.1
      → Shorter me.worker n r
      → Falls me (n + length me.stealers + 4) (popped X me idle r)
  popped-Falls me idle n (ends true, w) p s = (p, omega arith)
  popped-Falls me idle n (ends false, w) p s = (p, omega arith)
  popped-Falls me idle n (unwound, w) p s = (drop_self-Down me w p, omega arith)
  popped-Falls me idle n (no_fuel, w) p s = (p, omega arith)

  searched-Falls :
      (me : WorkerThread) (idle m i n : ℕ) (r : Outcome Bool × World X)
      → m + 2 < n
      → Down r.1
      → Falls me n (searched X me idle (scanning m i) r)
  searched-Falls me idle m i n (returned true, w) h p = (p, omega arith)
  searched-Falls me idle m i n (returned false, w) h p = (p, omega arith)
  searched-Falls me idle m i n (panicked, w) h p = (drop_self-Down me w p, omega arith)

  pub advance-Falls :
      (me : WorkerThread) (pc : Pc) (idle : ℕ) (w : World X)
      → Down w
      → 0 < load me pc w
      → Falls me (load me pc w) (advance X me pc idle w)
  unfolding advance
  advance-Falls me top idle w p h =
      subst
        (λ b. Falls me 1 (
          if b
          then ended X me stopped idle w
          else (record { pc = popping false; idle_count = idle }, w)))
        (sym p) (drop_self-Down me w p, omega arith)
  advance-Falls me (popping b) idle w p h =
      popped-Falls me idle _ _ (drain-K X Any Down Down-Runs 1 me.worker b w p)
        (drain-Shorter me.worker b w)
  advance-Falls me stealing idle w p h =
      searched-Falls me idle _ 0 _ _ (omega arith)
        (steal_global-K X Any Down Down-Runs me.worker w p)
  advance-Falls me (scanning zero i) idle w p h = (p, omega arith)
  advance-Falls me (scanning (suc m) i) idle w p h =
      searched-Falls me idle m (i + 1) _ _ (omega arith)
        (scan_round-K X Any Down Down-Runs me i (give_up X) (λ u q. q) w p)
  advance-Falls me stopped idle w p h = absurd (omega arith)
  advance-Falls me dead idle w p h = absurd (omega arith)
