-- ===== src/Worker/Liveness.antt =====
-- A worker that is alone (src/runtime/worker.rs) brings the tasks in its two queues to their ends.
pub mod Storage
pub mod Steals
pub mod Turns
pub mod Idle
pub mod Served
use mathlib.Core.Path.{subst}
use luminal.Prelude.{
  ℕ, zero, suc, ◌+◌, ◌-◌, ◌≤◌, ◌<◌, ◌≡◌, ◌≢◌, ◌∙◌, ◌⊎◌, inl, inr, refl, sym, ap, Bool, true, false,
  List, [], ◌∷◌, ◌++◌, length, length-append, All, arith,
}
use luminal.Crossbeam.{Crossbeam, Steal, TryRecv, Receives}
use luminal.Task.{JoinHandle, Future, Task}
use luminal.Task.Poll.{Poll, ready, pending, Outcome, returned, panicked}
use luminal.Task.Poll.Keeps.{Keeps}
use luminal.Task.Finite.{Costs, ListCosts, Gives, BoxCosts-pos}
use luminal.Task.Senders.{Others, Holds}
use luminal.Task.Progress.Settles.{Between}
use luminal.Task.Progress.Rounds.{Ending, Ending-cases, spawned-Ending}
use luminal.World.{World}
use luminal.JoinHandle.{poll_handle, received}
use luminal.Executor.{spawn, spawn_internal, deliver, abandon, host, poll_task}
use luminal.Executor.Polls.{poll_task-Keeps}
use luminal.Executor.BlockOn.Liveness.Storage.{store}
use luminal.Worker.{
  WorkerThread, Loop, ends, unwound, no_fuel, Pass, stops, continues, pass, after_pass, run,
}
use luminal.Worker.Invariant.{Runs, Stocked}
use luminal.Worker.Invariant.Passes.{pass-K}
use luminal.Worker.Passes.{Passes, pass-Passes}
use luminal.Worker.Liveness.Storage.{own_store}
use luminal.Worker.Liveness.Steals.{Open}
use luminal.Worker.Liveness.Turns.{Progress, owner, pass-Progress}

module _ {V : Type 0} (X : Crossbeam (Task V) V) where
  abbrev pub Any : Task V → Type 0
  Any t = Unit

  every_task : (l : List (Task V)) → All Any l
  every_task [] = tt
  every_task (t ∷ l) = (tt, every_task l)

  abbrev pub Up : World X → Type 0
  Up w = w.shutdown ≡ false

  stocked : (w : World X) → Stocked X Any w
  stocked w = record {
    waiting = every_task (X.items w.global_queue);
    assigned = λ d. every_task (X.local (w.deques d));
  }

  host-Up : Keeps (host X) Up
  unfolding spawn spawn_internal poll_handle deliver abandon
  host-Up = record {
    spawn_keeps = λ f w p. p;
    join_keeps = λ j w p. p;
    deliver_keeps = λ c v w p. p;
    abandon_keeps = λ c w p. p;
  }

  pub Up-Runs : Runs X Any Up
  Up-Runs = record {
    stocked = λ w p. stocked w;
    restocked = λ w q ds p h k. p;
    counted = λ w n i p. p;
    polled = λ t w g p. (tt, poll_task-Keeps X Up host-Up (λ u h q. q) t w p);
  }

  length-ListCosts : (n m : ℕ) (l : List (Task V)) → ListCosts n m l → length l ≤ n
  length-ListCosts n m [] h = omega arith
  length-ListCosts n m (t ∷ l) (a, b, n', m', le, me, k, h) =
      omega (arith, BoxCosts-pos a b t.future k, length-ListCosts n' m' l h)

  ListCosts-nothing : (m : ℕ) (l : List (Task V)) → ListCosts 0 m l → l ≡ []
  ListCosts-nothing m [] h = refl
  ListCosts-nothing m (t ∷ l) (a, b, n', m', le, me, k, h) =
      absurd (omega (arith, BoxCosts-pos a b t.future k))

  receive-ready :
      (r : TryRecv V) (b : Bool) (src src' : List V) (v : V)
      → Receives r src b src'
      → src ≡ v ∷ []
      → received X r ≡ ready v
  receive-ready (TryRecv.ok u) b src src' v e s = cc
  receive-ready TryRecv.empty b src src' v e s = cc
  receive-ready TryRecv.disconnected b src src' v e s = cc

  module _ (d c : ℕ) (v : V) where
    -- The result is in the channel, or there is a task to run.
    there_or_busy :
        (n : ℕ) (w : World X)
        → Open X d c v n w
        → (X.queued (w.channels c) ≡ v ∷ []) ⊎ ((own_store X d).tasks w ≢ [])
    unfolding own_store store
    there_or_busy n w (m, l, room, inl (old, hs, r)) = inr (λ e. subst (Holds c v) e hs)
    there_or_busy n w (m, l, room, inr (old, o, r)) = inl r

    -- Every queued task has a poll to spend.
    pub fuelled :
        (n f : ℕ) (w : World X) → n < f → Open X d c v n w → length (X.local (w.deques d)) < f
    unfolding own_store store
    fuelled n f w lt (m, l, room, bt) = omega (
      arith,
      length-ListCosts n m (X.local (w.deques d) ++ X.items w.global_queue) l,
      length-append (X.local (w.deques d)) (X.items w.global_queue),
    )

    module _ (calm : (q : X.Injector) → (X.steal q).0 ≢ Steal.retry) (stealers : List ℕ) (id : ℕ)
        (f : ℕ) where
      abbrev Sent : World X → Type 0
      Sent w = X.queued (w.channels c) ≡ v ∷ []

      abbrev me : WorkerThread
      me = owner X d c v calm stealers id

      next_pass :
          (n : ℕ) (w : World X) (r : Loop Pass × World X)
          → ((idle : ℕ) (u : World X)
              → Up u
              → Open X d c v n u
              → (k : ℕ) × (k ≤ n) × Sent (run X k f me idle u).1)
          → Passes X false w r
          → Up r.1
          → Progress X d c v n r
          → (k : ℕ) × (k ≤ n) × Sent (after_pass X me r (run X k f me)).1
      next_pass n w (ends stops, u) next ps up p = absurd p
      next_pass n w (ends (continues i q), u) next ps up p = next i u up p
      next_pass n w (unwound, u) next ps up p = absurd p
      next_pass n w (no_fuel, u) next ps up p = absurd ps

      passes-Sent :
          (n idle : ℕ) (w : World X)
          → n < f
          → Up w
          → Open X d c v n w
          → (k : ℕ) × (k ≤ n) × Sent (run X k f me idle w).1
      unfolding run own_store store
      passes-Sent zero idle w lt up o = elim (there_or_busy zero w o) [
        | inl there ↦ (0, omega arith, there)
        | inr busy ↦ absurd (busy (ListCosts-nothing o.0 _ o.1))
      ]
      passes-Sent (suc n) idle w lt up o = elim (there_or_busy (suc n) w o) [
        | inl there ↦ (0, omega arith, there)
        | inr busy ↦
            let one : suc n - 1 ≡ n = omega arith in
            let r = pass X f me idle w in
            let (k, le, s) =
              next_pass n w r (λ i u up' o'. passes-Sent n i u (omega arith) up' o')
                (subst (λ b. Passes X b w r) up
                  (pass-Passes X f me idle w (fuelled (suc n) f w lt o)))
                (pass-K X Any Up Up-Runs f me idle w up)
                (subst (λ i. Progress X d c v i r) one
                  (pass-Progress X d c v calm stealers id (suc n) f idle w up busy o)) in
            (suc k, omega arith, s)
      ]

  module _ (calm : (q : X.Injector) → (X.steal q).0 ≢ Steal.retry) where
    -- A worker that runs while the other threads do nothing brings a future that is spawned to its
    -- result: after some of its passes, `a + n` at most, a poll of the join handle gives `v`. The
    -- future gives `v` and awaits nothing. `a` polls end it and all tasks that it spawns, directly
    -- or not, together; these are `b` at most, and none of them awaits a handle or panics. The
    -- tasks in the local queue of the worker and in the global queue, with what they spawn, end
    -- likewise in `n` polls, and none of them holds the sender of the channel that comes next; no
    -- steal of a single task loses a race; the flag of the shutdown is down; and each pass has fuel
    -- for more than `a + n` local tasks.
    pub run-delivers :
        (me : WorkerThread) (fuel idle a b n m : ℕ) (f : Future V) (v : V) (w : World X)
        → Costs a b f
        → Gives v f
        → ListCosts n m (X.local (w.deques me.worker) ++ X.items w.global_queue)
        → Others w.next_channel (X.local (w.deques me.worker) ++ X.items w.global_queue)
        → w.shutdown ≡ false
        → a + n < fuel
        → (k : ℕ) × (k ≤ a + n)
          × ((poll_handle X (spawn X f w).0 (run X k fuel me idle (spawn X f w).1).1).0 ≡ ready v)
    unfolding spawn spawn_internal own_store store poll_handle
    run-delivers me fuel idle a b n m f v w c g q others up lt =
        let o = spawned-Ending (own_store X me.worker) a b n m f v w c g q tt others in
        let (k, le, s) =
          passes-Sent me.worker w.next_channel v calm me.stealers me.id fuel (a + n) idle
            (spawn X f w).1 lt up o in
        (k, le, receive-ready _ _ _ _ v (X.try_recv_lem _) s)
