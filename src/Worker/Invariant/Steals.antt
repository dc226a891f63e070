-- ===== src/Worker/Invariant/Steals.antt =====
-- A worker's search for work keeps an invariant (src/runtime/worker.rs).
use mathlib.Core.Path.{subst}
use luminal.Prelude.{
  ℕ, sym, All-append, zero, suc, ◌+◌, Bool, true, false, [], ◌∷◌, Option, none, some, All, update,
  if_both,
}
use luminal.Crossbeam.{Crossbeam, Steal}
use luminal.Task.{Task}
use luminal.Task.Poll.{Poll, ready, pending, Outcome, returned, panicked}
use luminal.World.{World}
use luminal.Executor.{poll_task}
use luminal.Executor.BlockOn.{requeue}
use luminal.Worker.{
  WorkerThread, finish, run_task, found, attempt, give_up, steal_one, steal_global, steal_one_from,
  steal_from, or_else, steal_at, scan_round, scan, steal_work,
}
use luminal.Worker.Invariant.{Got, Takes-Got, TakesBatch-Got, update-Filled, Runs}

module _ {V : Type 0} (X : Crossbeam (Task V) V) (Good : Task V → Type 0) where
  module _ (K : World X → Type 0) (runs : Runs X Good K) where
    open runs use {stocked, restocked, counted, polled}

    -- A good task may join the global queue.
    pub queued-K :
        (t : Task V) (w : World X)
        → Good t
        → K w
        → K (record w { global_queue = X.push w.global_queue t })
    queued-K t w g p =
        restocked w (X.push w.global_queue t) w.deques p
          (subst (All Good) (sym (X.items-push w.global_queue t))
            (All-append Good _ (t ∷ []) (stocked w p).waiting (g, tt)))
          (stocked w p).assigned

    finish-K :
        (r : Outcome (Poll (Unit {0})) × Task V × World X) → Good r.1 → K r.2 → K (finish X r).1
    finish-K (returned (ready _), t, w) g p = counted w _ _ p
    finish-K (returned pending, t, w) g p =
        queued-K t (record w { next_id = _ }) g (counted w _ _ p)
    finish-K (panicked, t, w) g p = p

    pub ran : (t : Task V) (w : World X) → Good t → K w → K (run_task X t w).1
    unfolding run_task
    ran t w g p = finish-K (poll_task X t w) (polled t w g p).0 (polled t w g p).1

    -- A good task that the blocked thread runs.
    pub requeue-K :
        (r : Outcome (Poll (Unit {0})) × Task V × World X) → Good r.1 → K r.2 → K (requeue X r).1
    requeue-K (returned (ready _), t, w) g p = p
    requeue-K (returned pending, t, w) g p = queued-K t w g p
    requeue-K (panicked, t, w) g p = p

    found-K : (r : Outcome (Unit {0}) × World X) → K r.1 → K (found X r).1
    found-K (returned _, w) p = p
    found-K (panicked, w) p = p

    attempt-K :
        (s : Steal (Task V)) (w : World X) (retried : World X → Outcome Bool × World X)
        → ((u : World X) → K u → K (retried u).1)
        → Got X Good s
        → K w
        → K (attempt X s w retried).1
    attempt-K (Steal.success t) w retried next g p = found-K _ (ran t w g p)
    attempt-K Steal.empty w retried next g p = p
    attempt-K Steal.retry w retried next g p = next w p

    steal_one-K : (w : World X) → K w → K (steal_one X w).1
    unfolding steal_one
    steal_one-K w p =
        let (got, left) =
          Takes-Got X Good _ _ _ (X.steal_lem w.global_queue) (stocked w p).waiting in
        attempt-K (X.steal w.global_queue).0 _ (give_up X) (λ u q. q) got
          (restocked w _ w.deques p left (stocked w p).assigned)

    pub steal_global-K : (d : ℕ) (w : World X) → K w → K (steal_global X d w).1
    unfolding steal_global
    steal_global-K d w p =
        let (got, left, more) =
          TakesBatch-Got X Good _ _ _ _ _ (X.steal_batch_and_pop_lem w.global_queue (w.deques d))
            (stocked w p).waiting ((stocked w p).assigned d) in
        attempt-K (X.steal_batch_and_pop w.global_queue (w.deques d)).0 _ (steal_one X) steal_one-K
          got
          (restocked w _ _ p left (update-Filled X Good w.deques d _ (stocked w p).assigned more))

    steal_one_from-K : (v : ℕ) (w : World X) → K w → K (steal_one_from X v w).1
    unfolding steal_one_from
    steal_one_from-K v w p =
        let (got, left) =
          Takes-Got X Good _ _ _ (X.stealer_steal_lem (w.deques v)) ((stocked w p).assigned v) in
        attempt-K (X.stealer_steal (w.deques v)).0 _ (give_up X) (λ u q. q) got
          (restocked w w.global_queue _ p (stocked w p).waiting
            (update-Filled X Good w.deques v _ (stocked w p).assigned left))

    steal_from-K : (v d : ℕ) (w : World X) → K w → K (steal_from X v d w).1
    unfolding steal_from
    steal_from-K v d w p =
        let (got, left, more) =
          TakesBatch-Got X Good _ _ _ _ _ (X.stealer_batch_and_pop_lem (w.deques v) (w.deques d))
            ((stocked w p).assigned v) ((stocked w p).assigned d) in
        attempt-K (X.stealer_batch_and_pop (w.deques v) (w.deques d)).0 _ (steal_one_from X v)
          (steal_one_from-K v) got
          (restocked w w.global_queue _ p (stocked w p).waiting (
            update-Filled X Good (update w.deques v _) d _
              (update-Filled X Good w.deques v _ (stocked w p).assigned left) more))

    or_else-K :
        (r : Outcome Bool × World X) (rest : World X → Outcome Bool × World X)
        → ((u : World X) → K u → K (rest u).1)
        → K r.1
        → K (or_else X r rest).1
    or_else-K (returned true, w) rest next p = p
    or_else-K (returned false, w) rest next p = next w p
    or_else-K (panicked, w) rest next p = p

    steal_at-K : (o : Option ℕ) (d : ℕ) (w : World X) → K w → K (steal_at X o d w).1
    steal_at-K none d w p = p
    steal_at-K (some v) d w p = steal_from-K v d w p

    pub scan_round-K :
        (me : WorkerThread) (i : ℕ) (rest : World X → Outcome Bool × World X)
        → ((u : World X) → K u → K (rest u).1)
        → (w : World X) → K w
        → K (scan_round X me i rest w).1
    scan_round-K me i rest next w p =
        if_both (λ (r : Outcome Bool × World X). K r.1) _ _ _ (next w p)
          (or_else-K _ rest next (steal_at-K _ me.worker w p))

    scan-K : (me : WorkerThread) (n i : ℕ) (w : World X) → K w → K (scan X me n i w).1
    unfolding scan
    scan-K me zero i w p = p
    scan-K me (suc n) i w p = scan_round-K me i (scan X me n (i + 1)) (scan-K me n (i + 1)) w p

    pub steal_work-K : (me : WorkerThread) (w : World X) → K w → K (steal_work X me w).1
    unfolding steal_work
    steal_work-K me w p = or_else-K _ _ (scan-K me _ 0) (steal_global-K me.worker w p)
