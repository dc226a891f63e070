-- ===== src/Worker/Invariant/Passes.antt =====
-- A pass of a worker keeps an invariant (src/runtime/worker.rs).
use luminal.Prelude.{ℕ, zero, suc, ◌≡◌, refl, Bool, true, false, Option, none, some, if_both}
use luminal.Crossbeam.{Crossbeam}
use luminal.Task.{Task}
use luminal.Task.Poll.{Outcome, returned, panicked}
use luminal.World.{World}
use luminal.Worker.{
  WorkerThread, Loop, ends, unwound, no_fuel, Pass, stops, steal_work, and_then, local_task,
  pop_round, drain, stolen, drained, pass,
}
use luminal.Worker.Invariant.{Pops-Got, Pops-first, update-Filled, Runs}
use luminal.Worker.Invariant.Steals.{ran, steal_work-K}

module _ {V : Type 0} (X : Crossbeam (Task V) V) (Good : Task V → Type 0) where
  module _ (K : World X → Type 0) (runs : Runs X Good K) where
    open runs use {stocked, restocked, counted, polled}

    and_then-K :
        (r : Outcome (Unit {0}) × World X) (rest : World X → Loop Bool × World X)
        → ((u : World X) → K u → K (rest u).1)
        → K r.1
        → K (and_then X r rest).1
    and_then-K (returned _, w) rest next p = next w p
    and_then-K (panicked, w) rest next p = p

    local_task-K :
        (o : Option (Task V)) (b : Bool) (w : World X) (rest : World X → Loop Bool × World X)
        → ((u : World X) → K u → K (rest u).1)
        → ((t : Task V) → o ≡ some t → Good t)
        → K w
        → K (local_task X o b w rest).1
    local_task-K none b w rest next g p = p
    local_task-K (some t) b w rest next g p =
        and_then-K _ rest next (ran X Good K runs t w (g t refl) p)

    -- One round of the loop over the local queue.
    pub pop-K :
        (d : ℕ) (b : Bool) (w : World X) (rest : World X → Loop Bool × World X)
        → ((u : World X) → K u → K (rest u).1)
        → K w
        → K (pop_round X d b w rest).1
    pop-K d b w rest next p =
        let h = X.pop_lem (w.deques d) in
        let all = (stocked w p).assigned d in
        local_task-K (X.pop (w.deques d)).0 b _ rest next (λ t. Pops-first X Good _ _ _ t h all)
          (restocked w w.global_queue _ p (stocked w p).waiting (
            update-Filled X Good w.deques d _ (stocked w p).assigned (Pops-Got X Good _ _ _ h all)))

    pub drain-K : (f d : ℕ) (b : Bool) (w : World X) → K w → K (drain X f d b w).1
    unfolding drain
    drain-K zero d b w p = p
    drain-K (suc f) d b w p = pop-K d b w (drain X f d true) (drain-K f d true) p

    drained-K :
        (me : WorkerThread) (idle : ℕ) (r : Loop Bool × World X) → K r.1 → K (drained X me idle r).1
    drained-K me idle (ends true, w) p = p
    drained-K me idle (ends false, w) p =
        stolen-K (steal_work X me w) (steal_work-K X Good K runs me w p)
      where
        stolen-K : (r : Outcome Bool × World X) → K r.1 → K (stolen X idle r).1
        stolen-K (returned b, u) q = q
        stolen-K (panicked, u) q = q
    drained-K me idle (unwound, w) p = p
    drained-K me idle (no_fuel, w) p = p

    pub pass-K :
        (f : ℕ) (me : WorkerThread) (idle : ℕ) (w : World X) → K w → K (pass X f me idle w).1
    unfolding pass
    pass-K f me idle w p =
        if_both (λ (r : Loop Pass × World X). K r.1) w.shutdown (ends stops, w) _ p
          (drained-K me idle _ (drain-K f me.worker false w p))
