-- ===== src/Pool/Refines/Searches.antt =====
-- A worker's search for work (src/runtime/worker.rs) does what a bag of tasks allows.
use mathlib.Core.Path.{subst}
use luminal.Prelude.{
  ℕ, ◌+◌, ◌%◌, ◌<◌, ◌≡◌, ◌≢◌, ◌==◌, sym, Bool, true, false, Bag, ◌⊕◌, nothing-⊕, length, arith, inl,
  inr, Bool-cases,
}
use luminal.Crossbeam.{Crossbeam, Steal}
use luminal.Task.{Future, Task}
use luminal.Task.Poll.{Outcome, returned, panicked}
use luminal.World.{World}
use luminal.Worker.Wiring.{IsWired, victim}
use luminal.Worker.{
  WorkerThread, get_elem?, run_task, found, attempt, give_up, steal_one, steal_global,
  steal_one_from, steal_from, or_else, steal_at, scan_round,
}
use luminal.Pool.{Pool, put, Invariant}
use luminal.Pool.Contents.{
  bag, held, Takes-held, TakesBatch-held, bag-deque, bag-batch, bag-move, bag-steal,
}
use luminal.Pool.View.{view, run_task-seen}

module _ {V : Type 0} (X : Crossbeam (Task V) V) (n : ℕ) {client : ℕ → Future V → Type 0}
    {helping : Bool} (I : Pool X → Type 0) (keeps : Invariant X client helping I) where
  abbrev pub Shown : World X → Type 0
  Shown w = I (view X n w)

  -- The same while the tasks `h` are in nobody's queue.
  abbrev pub Holding : Bag (Task V) → World X → Type 0
  Holding h w = I (record (view X n w) { tasks = h ⊕ bag X n w })

  pub released :
      (h : Bag (Task V)) (p : Pool X) (b : Bag (Task V))
      → p.tasks ≡ h ⊕ b
      → I p
      → I (record p { tasks = h ⊕ b })
  released h p b e r = subst (λ (c : Bag (Task V)). I (record p { tasks = c })) e r

  pub ran : (t : Task V) (w : World X) → I (put X t (view X n w)) → Shown (run_task X t w).1
  ran t w r = subst I (sym (run_task-seen X n t w)) (keeps.served_keeps t (view X n w) r)

  found-Shown : (r : Outcome (Unit {0}) × World X) → Shown r.1 → Shown (found X r).1
  found-Shown (returned _, w) p = p
  found-Shown (panicked, w) p = p

  pub empty_handed :
      (w : World X) (b : Bag (Task V))
      → b ≡ bag X n w
      → I (record (view X n w) { tasks = b })
      → Shown w
  empty_handed w b e r = subst (λ (c : Bag (Task V)). I (record (view X n w) { tasks = c })) e r

  attempt-Shown :
      (s : Steal (Task V)) (w : World X) (retried : World X → Outcome Bool × World X)
      → ((u : World X) → Shown u → Shown (retried u).1)
      → Holding (held X s) w
      → Shown (attempt X s w retried).1
  attempt-Shown (Steal.success t) w retried next r = found-Shown _ (ran t w r)
  attempt-Shown Steal.empty w retried next r = empty_handed w _ (nothing-⊕ _) r
  attempt-Shown Steal.retry w retried next r = next w (empty_handed w _ (nothing-⊕ _) r)

  steal_one-Shown : (w : World X) → Shown w → Shown (steal_one X w).1
  unfolding steal_one
  steal_one-Shown w p =
      let r = X.steal w.global_queue in
      attempt-Shown r.0 (record w { global_queue = r.1 }) (give_up X) (λ u q. q)
        (released _ _ _ (bag-steal X n _ w r.1 (Takes-held X r.0 _ _ (X.steal_lem w.global_queue)))
          p)

  pub steal_global-Shown : (d : ℕ) (w : World X) → d < n → Shown w → Shown (steal_global X d w).1
  unfolding steal_global
  steal_global-Shown d w lt p =
      let r = X.steal_batch_and_pop w.global_queue (w.deques d) in
      attempt-Shown r.0 _ (steal_one X) steal_one-Shown (
        released _ _ _
          (bag-batch X n d _ w r.1 r.2 lt
            (TakesBatch-held X r.0 _ _ _ _ (X.steal_batch_and_pop_lem w.global_queue (w.deques d))))
          p)

  steal_one_from-Shown : (v : ℕ) → v < n → (w : World X) → Shown w → Shown (steal_one_from X v w).1
  unfolding steal_one_from
  steal_one_from-Shown v lt w p =
      let r = X.stealer_steal (w.deques v) in
      attempt-Shown r.0 _ (give_up X) (λ u q. q)
        (released _ _ _
          (bag-deque X n v _ w r.1 lt (Takes-held X r.0 _ _ (X.stealer_steal_lem (w.deques v)))) p)

  steal_from-Shown :
      (v d : ℕ) (w : World X) → v < n → d < n → v ≢ d → Shown w → Shown (steal_from X v d w).1
  unfolding steal_from
  steal_from-Shown v d w lv ld ne p =
      let r = X.stealer_batch_and_pop (w.deques v) (w.deques d) in
      attempt-Shown r.0 _ (steal_one_from X v) (steal_one_from-Shown v lv) (
        released _ _ _
          (bag-move X n v d _ w r.1 r.2 lv ld ne
            (TakesBatch-held X r.0 _ _ _ _ (X.stealer_batch_and_pop_lem (w.deques v) (w.deques d))))
          p)

  or_else-Shown :
      (r : Outcome Bool × World X) (rest : World X → Outcome Bool × World X)
      → ((u : World X) → Shown u → Shown (rest u).1)
      → Shown r.1
      → Shown (or_else X r rest).1
  or_else-Shown (returned true, w) rest next p = p
  or_else-Shown (returned false, w) rest next p = next w p
  or_else-Shown (panicked, w) rest next p = p

  pub scan_round-Shown :
      (me : WorkerThread) (i : ℕ) (w : World X)
      → IsWired n me
      → Shown w
      → Shown (scan_round X me i (give_up X) w).1
  scan_round-Shown me i w wired p =
      let (v, e) = victim wired i in
      let idx = (me.id % length me.stealers + i) % length me.stealers in
      elim (Bool-cases (idx == me.id)) [
        | inl own ↦ rw (own, scan_round) p
        | inr other ↦
            let (lt, apart) = wired.victims idx v e in
            let r : Outcome Bool × World X = steal_at X (get_elem? me.stealers idx) me.worker w in
            let shown : Shown r.1 =
              rw (e, steal_at)
                (steal_from-Shown v me.worker w lt wired.home (apart (ground arith)) p) in
            rw (other, scan_round) (or_else-Shown r (give_up X) (λ u q. q) shown)
      ]
