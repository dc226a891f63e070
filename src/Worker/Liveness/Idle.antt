-- ===== src/Worker/Liveness/Idle.antt =====
-- A pass of the first worker (src/runtime/worker.rs), which steals from no other.
use mathlib.Core.Path.{subst, ap₂}
use luminal.Prelude.{
  ℕ, zero, suc, ◌-◌, ◌≡◌, ◌≢◌, ◌∙◌, ◌⊎◌, inl, inr, refl, sym, ap, Bool, true, false, List, [], ◌∷◌,
  ◌++◌, Option, if◌then◌else◌, none, some, length, update, update_self, arith,
}
use luminal.Crossbeam.{Crossbeam, Steal, Takes, TakesBatch, Pops}
use luminal.Task.{Task}
use luminal.Task.Poll.{Outcome, returned, panicked}
use luminal.Task.Finite.{ListCosts}
use luminal.Task.Progress.Rounds.{Ending-mono}
use luminal.World.{World}
use luminal.Executor.BlockOn.Liveness.Storage.{store}
use luminal.Worker.{
  Loop, ends, unwound, no_fuel, Pass, stops, continues, attempt, give_up, steal_one, steal_global,
  steal_work, scan, or_else, local_task, drain, stolen, drained, pass,
}
use luminal.Worker.StealOrder.{started, range, scan-started}
use luminal.Worker.Liveness.Storage.{own_store}
use luminal.Worker.Liveness.Steals.{Open, same-Open}
use luminal.Worker.Liveness.Turns.{Progress, pass-Progress}

module _ {V : Type 0} (X : Crossbeam (Task V) V) (c : ℕ) (v : V) where
  -- A search that finds nothing, while no poll is left to spend.
  abbrev Quiet : Outcome Bool × World X → Type 0
  Quiet (returned true, w) = ⊥
  Quiet (returned false, w) = Open X 0 c v 0 w
  Quiet (panicked, w) = ⊥

  attempt_one-Quiet :
      (s : Steal (Task V)) (q : X.Injector) (w : World X)
      → X.items w.global_queue ≡ []
      → Takes s (X.items w.global_queue) (X.items q)
      → Open X 0 c v 0 w
      → Quiet (attempt X s (record w { global_queue = q }) (give_up X))
  attempt_one-Quiet (Steal.success t) q w none_left e o = cc
  attempt_one-Quiet Steal.empty q w none_left (e, e') o =
      same-Open X 0 c v 0 w q w.deques (ap (λ x. X.local (w.deques 0) ++ x) (e' ∙ sym e)) o
  attempt_one-Quiet Steal.retry q w none_left e o =
      same-Open X 0 c v 0 w q w.deques (ap (λ x. X.local (w.deques 0) ++ x) e) o

  attempt-Quiet :
      (s : Steal (Task V)) (q : X.Injector) (l : X.Worker) (w : World X)
      → X.items w.global_queue ≡ []
      → TakesBatch s (X.items w.global_queue) (X.items q) (X.local (w.deques 0)) (X.local l)
      → Open X 0 c v 0 w
      → Quiet
          (attempt X s (record w { global_queue = q; deques = update w.deques 0 l }) (steal_one X))
  unfolding steal_one
  attempt-Quiet (Steal.success t) q l w none_left (batch, e, f) o = cc
  attempt-Quiet Steal.empty q l w none_left (e, e', f) o =
      same-Open X 0 c v 0 w q (update w.deques 0 l)
        (ap₂ ◌++◌ (ap X.local (update_self w.deques 0 l) ∙ f) (e' ∙ sym e)) o
  attempt-Quiet Steal.retry q l w none_left (e, f) o =
      attempt_one-Quiet _ _ (record w { global_queue = q; deques = update w.deques 0 l })
        (e ∙ none_left) (X.steal_lem q)
        (same-Open X 0 c v 0 w q (update w.deques 0 l)
          (ap₂ ◌++◌ (ap X.local (update_self w.deques 0 l) ∙ f) e) o)

  searched-Progress :
      (idle : ℕ) (r : Outcome Bool × World X)
      → Quiet r
      → Progress X 0 c v 0
          (stolen X idle (or_else X r (scan X (started 0) (length (range (suc 0))) 0)))
  searched-Progress idle (returned true, w) o = absurd o
  searched-Progress idle (returned false, w) o =
      subst (λ r. Progress X 0 c v 0 (stolen X idle r)) (sym (scan-started X 0 w)) o
  searched-Progress idle (panicked, w) o = absurd o

  local_task-idle :
      (f idle : ℕ) (t : Option (Task V)) (w : World X) (l : X.Worker)
      → Pops t (X.local (w.deques 0)) (X.local l)
      → X.local (w.deques 0) ≡ []
      → X.items w.global_queue ≡ []
      → Open X 0 c v 0 w
      → Progress X 0 c v 0 (
          drained X
            (started 0)
            idle
            (local_task X t false (record w { deques = update w.deques 0 l }) (drain X f 0 true)))
  unfolding steal_work steal_global
  local_task-idle f idle none w l (e, e') own none_left o =
      let u = record w { deques = update w.deques 0 l } in
      searched-Progress idle (steal_global X 0 u) (
        attempt-Quiet _ _ _ u none_left (X.steal_batch_and_pop_lem u.global_queue (u.deques 0)) (
          same-Open X 0 c v 0 w w.global_queue (update w.deques 0 l)
            (ap (λ x. x ++ X.items w.global_queue)
              (ap X.local (update_self w.deques 0 l) ∙ e' ∙ sym e))
            o))
  local_task-idle f idle (some t) w l e own none_left o = cc

  drain-idle :
      (f idle : ℕ) (w : World X)
      → X.local (w.deques 0) ≡ []
      → X.items w.global_queue ≡ []
      → Open X 0 c v 0 w
      → Progress X 0 c v 0 (drained X (started 0) idle (drain X f 0 false w))
  unfolding drain
  drain-idle zero idle w own none_left o = tt
  drain-idle (suc f) idle w own none_left o =
      local_task-idle f idle _ w _ (X.pop_lem (w.deques 0)) own none_left o

  parts_nil : (a b : List (Task V)) → a ++ b ≡ [] → (a ≡ []) × (b ≡ [])
  parts_nil [] b e = (refl, e)
  parts_nil (t ∷ a) b e = cc

  nil-cases : (l : List (Task V)) → (l ≡ []) ⊎ (l ≢ [])
  nil-cases [] = inl refl
  nil-cases (t ∷ l) = inr (λ e. cc)

  Progress-pred :
      (n : ℕ) (r : Loop Pass × World X) → Progress X 0 c v 0 r → Progress X 0 c v (n - 1) r
  Progress-pred n (ends stops, w) o = absurd o
  Progress-pred n (ends (continues i p), w) o =
      Ending-mono (own_store X 0) 0 (n - 1) c v w (omega arith) o
  Progress-pred n (unwound, w) o = absurd o
  Progress-pred n (no_fuel, w) o = tt

  -- With no task left, nothing is left to spend.
  spent-Open :
      (n : ℕ) (w : World X) → (own_store X 0).tasks w ≡ [] → Open X 0 c v n w → Open X 0 c v 0 w
  unfolding own_store
  spent-Open n w e (m, l, room, bt) = (0, subst (ListCosts 0 0) (sym e) tt, room, bt)

  -- Whatever there is to do, a pass spends a poll, if one is left.
  pub pass-Open :
      (calm : (q : X.Injector) → (X.steal q).0 ≢ Steal.retry)
      → (n f idle : ℕ) (w : World X) → w.shutdown ≡ false
      → Open X 0 c v n w
      → Progress X 0 c v (n - 1) (pass X f (started 0) idle w)
  unfolding pass own_store store
  pass-Open calm n f idle w up o = elim (nil-cases ((own_store X 0).tasks w)) [
    | inl nil ↦
        let (own, none_left) = parts_nil _ _ nil in
        Progress-pred n _ (
          subst
            (λ b.
              Progress X 0 c v 0
                (if b then (ends stops, w) else drained X (started 0) idle (drain X f 0 false w)))
            (sym up) (drain-idle f idle w own none_left (spent-Open n w nil o)))
    | inr busy ↦ pass-Progress X 0 c v calm (range (suc 0)) 0 n f idle w up busy o
  ]
