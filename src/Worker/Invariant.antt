-- ===== src/Worker/Invariant.antt =====
-- A state of the executor and the tasks in it: what holds of every queued task and is kept by every
-- run of such a task, a pass of a worker keeps.
pub mod Steals
pub mod Passes
pub mod Helps
pub mod Drops
use mathlib.Core.Path.{subst}
use mathlib.Core.Logic.{if_pos, if_neg}
use luminal.Prelude.{
  ℕ, sym, ℕ_discrete, All-append, zero, suc, ◌+◌, ◌≡◌, refl, Bool, true, false, List, [], ◌∷◌, ◌++◌,
  Option, none, some, All, update, if_both,
}
use luminal.Crossbeam.{Crossbeam, Steal, TryRecv, Takes, TakesBatch, Pops}
use luminal.Task.{Task}
use luminal.Task.Poll.{Poll, ready, pending, Outcome, returned, panicked}
use luminal.World.{World}
use luminal.Executor.{poll_task}
use luminal.Executor.BlockOn.{requeue, and_help, help_round, help, helped_turn, turn_on}
use luminal.Worker.{
  WorkerThread, Loop, ends, unwound, no_fuel, Pass, stops, finish, run_task, found, attempt,
  give_up, steal_one, steal_global, steal_one_from, steal_from, or_else, steal_at, scan_round, scan,
  steal_work, and_then, local_task, pop_round, drain, stolen, drained, pass,
}

module _ {V : Type 0} (X : Crossbeam (Task V) V) (Good : Task V → Type 0) where
  -- Every queued task is good.
  pub record Stocked (w : World X) : Type 0 where
    pub waiting : All Good (X.items w.global_queue)
    pub assigned : (d : ℕ) → All Good (X.local (w.deques d))

  All-append_parts : (xs ys : List (Task V)) → All Good (xs ++ ys) → All Good xs × All Good ys
  All-append_parts [] ys h = (tt, h)
  All-append_parts (x ∷ xs) ys h =
      let (left, right) = All-append_parts xs ys h.1 in ((h.0, left), right)

  abbrev pub Got : Steal (Task V) → Type 0
  Got (Steal.success t) = Good t
  Got Steal.empty = Unit
  Got Steal.retry = Unit

  pub Takes-Got :
      (s : Steal (Task V)) (src src' : List (Task V))
      → Takes s src src'
      → All Good src
      → Got s × All Good src'
  Takes-Got (Steal.success t) src src' e h = subst (All Good) e h
  Takes-Got Steal.empty src src' e h = (tt, subst (All Good) (sym e.1) tt)
  Takes-Got Steal.retry src src' e h = (tt, subst (All Good) (sym e) h)

  pub TakesBatch-Got :
      (s : Steal (Task V)) (src src' dst dst' : List (Task V))
      → TakesBatch s src src' dst dst'
      → All Good src
      → All Good dst
      → Got s × All Good src' × All Good dst'
  TakesBatch-Got (Steal.success t) src src' dst dst' (b, e, f) h k =
      let (first, rest) = subst (All Good) e h in
      let (moved, left) = All-append_parts b src' rest in
      (first, left, subst (All Good) (sym f) (All-append Good dst b k moved))
  TakesBatch-Got Steal.empty src src' dst dst' e h k =
      (tt, subst (All Good) (sym e.1) tt, subst (All Good) (sym e.2) k)
  TakesBatch-Got Steal.retry src src' dst dst' e h k =
      (tt, subst (All Good) (sym e.0) h, subst (All Good) (sym e.1) k)

  pub Pops-Got :
      (o : Option (Task V)) (src src' : List (Task V))
      → Pops o src src'
      → All Good src
      → All Good src'
  Pops-Got none src src' e h = subst (All Good) (sym e.1) tt
  Pops-Got (some t) src src' e h = (subst (All Good) e h).1

  pub Pops-first :
      (o : Option (Task V)) (src src' : List (Task V)) (t : Task V)
      → Pops o src src'
      → All Good src
      → o ≡ some t
      → Good t
  Pops-first o src src' t p h e = (subst (All Good) (subst (λ o'. Pops o' src src') e p) h).0

  abbrev pub Filled : (ℕ → X.Worker) → Type 0
  Filled ds = (d : ℕ) → All Good (X.local (ds d))

  pub update-Filled :
      (ds : ℕ → X.Worker) (i : ℕ) (l : X.Worker)
      → Filled ds
      → All Good (X.local l)
      → Filled (update ds i l)
  update-Filled ds i l h k d = elim (ℕ_discrete i d) [
    | yes hit ↦ rw (if_pos _ hit) k
    | no miss ↦ rw (if_neg _ miss) (h d)
  ]

  -- What an invariant must give: all queued tasks are good, the queues may change for others that
  -- hold good tasks, the statistics do not matter, and a poll of a good task keeps it.
  pub record Runs (K : World X → Type 0) : Type 0 where
    pub stocked : (w : World X) → K w → Stocked w
    pub restocked :
        (w : World X) (q : X.Injector) (ds : ℕ → X.Worker)
        → K w
        → All Good (X.items q)
        → ((d : ℕ) → All Good (X.local (ds d)))
        → K (record w { global_queue = q; deques = ds })
    pub counted : (w : World X) (n i : ℕ) → K w → K (record w { tasks_processed = n; next_id = i })
    pub polled :
        (t : Task V) (w : World X) → Good t → K w → Good (poll_task X t w).1 × K (poll_task X t w).2
