-- ===== src/Worker/Balance/Steals.antt =====
-- The books of an executor under a worker's search for work (src/runtime/worker.rs).
use luminal.Prelude.{
  ℕ, zero, suc, ◌+◌, ◌%◌, ◌<◌, ◌≡◌, ◌≢◌, ◌==◌, refl, Bool, true, false, length, total-update, arith,
  update, inl, inr, Bool-cases,
}
use luminal.Crossbeam.{Crossbeam}
use luminal.Task.{Task}
use luminal.Task.Poll.{Outcome, returned, panicked}
use luminal.World.{World}
use luminal.Executor.Balance.{backlog, Balanced}
use luminal.Worker.Wiring.{IsWired, victim}
use luminal.Worker.{
  WorkerThread, steal_one_from, steal_from, or_else, steal_at, scan_round, scan, steal_work,
}
use luminal.Worker.Balance.Attempts.{
  Books, held, TakesBatch-length, size, attempt-Books, steal_global-Books, steal_one_from-Books,
}

module _ {V : Type 0} (X : Crossbeam (Task V) V) where
  -- A batch moves from the deque `v` to the deque `d`.
  backlog-move :
      (n v d : ℕ) (w : World X) (m l : X.Worker) (k : ℕ)
      → v < n
      → d < n
      → v ≢ d
      → size X (w.deques v) + (size X) (w.deques d) ≡ size X m + (size X) l + k
      → backlog X n w ≡ backlog X n (record w { deques = update (update w.deques v m) d l }) + k
  unfolding backlog
  backlog-move n v d w m l k lv ld ne h = ground (
    arith,
    total-update (size X) w.deques v m n lv,
    total-update (size X) (update w.deques v m) d l n ld,
  )

  steal_from-Books :
      (n k v d : ℕ) (w : World X)
      → v < n
      → d < n
      → v ≢ d
      → Balanced X n k w
      → Books X n k (steal_from X v d w)
  unfolding steal_from
  steal_from-Books n k v d w lv ld ne =
      let r = X.stealer_batch_and_pop (w.deques v) (w.deques d) in
      attempt-Books X n k r.0 w (record w { deques = update (update w.deques v r.1) d r.2 })
        (steal_one_from X v)
        (backlog-move n v d w r.1 r.2 (held X r.0) lv ld ne
          (TakesBatch-length X r.0 _ _ _ _ (X.stealer_batch_and_pop_lem (w.deques v) (w.deques d))))
        refl refl (λ u. steal_one_from-Books X n k v u lv)

  or_else-Books :
      (n k : ℕ) (r : Outcome Bool × World X) (rest : World X → Outcome Bool × World X)
      → ((u : World X) → Balanced X n k u → Books X n k (rest u))
      → Books X n k r
      → Books X n k (or_else X r rest)
  or_else-Books n k (returned true, w) rest next p = p
  or_else-Books n k (returned false, w) rest next p = next w p
  or_else-Books n k (panicked, w) rest next p = p

  pub scan_round-Books :
      (m k : ℕ) (me : WorkerThread)
      → IsWired m me
      → (i : ℕ) (rest : World X → Outcome Bool × World X)
      → ((u : World X) → Balanced X m k u → Books X m k (rest u))
      → (w : World X) → Balanced X m k w
      → Books X m k (scan_round X me i rest w)
  scan_round-Books m k me wired i rest next w p =
      let (v, e) = victim wired i in
      let idx = (me.id % length me.stealers + i) % length me.stealers in
      elim (Bool-cases (idx == me.id)) [
        | inl own ↦ rw (own, scan_round) (next w p)
        | inr other ↦
            let (lt, apart) = wired.victims idx v e in
            rw (other, scan_round)
              (or_else-Books m k _ rest next (
                rw (e, steal_at)
                  (steal_from-Books m k v me.worker w lt wired.home (apart (ground arith)) p)))
      ]

  scan-Books :
      (m k : ℕ) (me : WorkerThread)
      → IsWired m me
      → (n i : ℕ) (w : World X) → Balanced X m k w
      → Books X m k (scan X me n i w)
  unfolding scan
  scan-Books m k me wired zero i w p = p
  scan-Books m k me wired (suc n) i w p =
      scan_round-Books m k me wired i (scan X me n (i + 1)) (scan-Books m k me wired n (i + 1)) w p

  pub steal_work-Books :
      (n k : ℕ) (me : WorkerThread) (w : World X)
      → IsWired n me
      → Balanced X n k w
      → Books X n k (steal_work X me w)
  unfolding steal_work
  steal_work-Books n k me w wired p =
      or_else-Books n k _ _ (scan-Books n k me wired (length me.stealers) 0)
        (steal_global-Books X n k me.worker w wired.home p)
