-- ===== src/Worker/Liveness/Turns.antt =====
-- A pass of a worker (src/runtime/worker.rs), when all tasks come to an end.
use mathlib.Core.Path.{subst}
use luminal.Prelude.{
  ℕ, zero, suc, ◌-◌, ◌≡◌, ◌≢◌, ◌∙◌, refl, sym, ap, Bool, true, false, List, [], ◌++◌, Option,
  if◌then◌else◌, none, some, update, update_self, arith,
}
use luminal.Crossbeam.{Crossbeam, Steal, Pops}
use luminal.Task.{Task}
use luminal.Task.Poll.{Outcome, returned, panicked}
use luminal.Task.Progress.Rounds.{Ending-mono}
use luminal.World.{World}
use luminal.Executor.BlockOn.Liveness.Storage.{store}
use luminal.Worker.{
  WorkerThread, Loop, ends, unwound, no_fuel, Pass, stops, continues, steal_work, scan, or_else,
  and_then, local_task, drain, stolen, drained, pass,
}
use luminal.Worker.Liveness.Steals.{Open, Ends, Found, run_task-Ends, same-Open, steal_global-Found}
use luminal.Worker.Liveness.Storage.{own_store, local-Popped}

module _ {V : Type 0} (X : Crossbeam (Task V) V) (d c : ℕ) (v : V) where
  -- The loop over the local queue, once it has found work.
  abbrev Drained : ℕ → Loop Bool × World X → Type 0
  Drained n (ends true, w) = Open X d c v n w
  Drained n (ends false, w) = ⊥
  Drained n (unwound, w) = ⊥
  Drained n (no_fuel, w) = Unit

  and_then-Drained :
      (n : ℕ) (r : Outcome (Unit {0}) × World X) (rest : World X → Loop Bool × World X)
      → ((u : World X) → Open X d c v n u → Drained n (rest u))
      → Ends X d c v n r
      → Drained n (and_then X r rest)
  and_then-Drained n (returned _, w) rest next o = next w o
  and_then-Drained n (panicked, w) rest next o = absurd o

  pred-Ends :
      {A : Type 0} (n : ℕ) (r : Outcome A × World X) → Ends X d c v (n - 1) r → Ends X d c v n r
  pred-Ends n (returned _, w) o = Ending-mono (own_store X d) (n - 1) n c v w (omega arith) o
  pred-Ends n (panicked, w) o = absurd o

  emptied-Open :
      (n : ℕ) (w : World X) (l : X.Worker)
      → X.local (w.deques d) ≡ []
      → X.local l ≡ []
      → Open X d c v n w
      → Open X d c v n (record w { deques = update w.deques d l })
  emptied-Open n w l e f o =
      same-Open X d c v n w w.global_queue (update w.deques d l)
        (ap (λ x. x ++ X.items w.global_queue) (ap X.local (update_self w.deques d l) ∙ f ∙ sym e))
        o

  local_task-Drained :
      (n f : ℕ) (t : Option (Task V)) (w : World X) (l : X.Worker)
      → ((u : World X) → Open X d c v n u → Drained n (drain X f d true u))
      → Pops t (X.local (w.deques d)) (X.local l)
      → Open X d c v n w
      → Drained n
          (local_task X t true (record w { deques = update w.deques d l }) (drain X f d true))
  local_task-Drained n f none w l next (e, e') o = emptied-Open n w l e e' o
  local_task-Drained n f (some t) w l next e o =
      and_then-Drained n _ (drain X f d true) next
        (pred-Ends n _ (run_task-Ends X d c v n t w _ (local-Popped X d t w l e) o))

  drain-Drained : (f n : ℕ) (w : World X) → Open X d c v n w → Drained n (drain X f d true w)
  unfolding drain
  drain-Drained zero n w o = tt
  drain-Drained (suc f) n w o =
      local_task-Drained n f _ w _ (drain-Drained f n) (X.pop_lem (w.deques d)) o

  -- A pass that has spent a poll.
  abbrev pub Progress : ℕ → Loop Pass × World X → Type 0
  Progress n (ends stops, w) = ⊥
  Progress n (ends (continues _ _), w) = Open X d c v n w
  Progress n (unwound, w) = ⊥
  Progress n (no_fuel, w) = Unit

  module _ (calm : (q : X.Injector) → (X.steal q).0 ≢ Steal.retry) (stealers : List ℕ)
      (id : ℕ) where
    abbrev pub owner : WorkerThread
    owner = record { id = id; worker = d; stealers = stealers }

    drained-Progress :
        (n idle : ℕ) (r : Loop Bool × World X) → Drained n r → Progress n (drained X owner idle r)
    drained-Progress n idle (ends true, w) o = o
    drained-Progress n idle (ends false, w) o = absurd o
    drained-Progress n idle (unwound, w) o = absurd o
    drained-Progress n idle (no_fuel, w) o = tt

    stolen-Progress :
        (n idle : ℕ) (r : Outcome Bool × World X) (rest : World X → Outcome Bool × World X)
        → Found X d c v n r
        → Progress n (stolen X idle (or_else X r rest))
    stolen-Progress n idle (returned true, w) rest o = o
    stolen-Progress n idle (returned false, w) rest o = absurd o
    stolen-Progress n idle (panicked, w) rest o = absurd o

    local_task-Progress :
        (n f idle : ℕ) (t : Option (Task V)) (w : World X) (l : X.Worker)
        → Pops t (X.local (w.deques d)) (X.local l)
        → (own_store X d).tasks w ≢ []
        → Open X d c v n w
        → Progress (n - 1) (
            drained X owner idle
              (local_task X t false (record w { deques = update w.deques d l }) (drain X f d true)))
    unfolding steal_work own_store store
    local_task-Progress n f idle none w l (e, e') ne o =
        stolen-Progress (n - 1) idle _ (scan X owner _ 0) (
          steal_global-Found X d c v calm n _ (ap X.local (update_self w.deques d l) ∙ e')
            (λ g. ne (rw (e, g) refl)) (emptied-Open n w l e e' o))
    local_task-Progress n f idle (some t) w l e ne o = drained-Progress (n - 1) idle _ (
        and_then-Drained (n - 1) _ (drain X f d true) (drain-Drained f (n - 1))
          (run_task-Ends X d c v n t w _ (local-Popped X d t w l e) o))

    drain-Progress :
        (n f idle : ℕ) (w : World X)
        → (own_store X d).tasks w ≢ []
        → Open X d c v n w
        → Progress (n - 1) (drained X owner idle (drain X f d false w))
    unfolding drain
    drain-Progress n zero idle w ne o = tt
    drain-Progress n (suc f) idle w ne o =
        local_task-Progress n f idle _ w _ (X.pop_lem (w.deques d)) ne o

    -- A pass that finds a task spends one of the polls that are left.
    pub pass-Progress :
        (n f idle : ℕ) (w : World X)
        → w.shutdown ≡ false
        → (own_store X d).tasks w ≢ []
        → Open X d c v n w
        → Progress (n - 1) (pass X f owner idle w)
    unfolding pass
    pass-Progress n f idle w up ne o =
        subst
          (λ b.
            Progress (n - 1)
              (if b then (ends stops, w) else drained X owner idle (drain X f d false w)))
          (sym up) (drain-Progress n f idle w ne o)
