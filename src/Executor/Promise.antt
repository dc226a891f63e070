-- ===== src/Executor/Promise.antt =====
-- The promise of every channel of an executor: what is queued in it is allowed, and the task that
-- holds its sender will send nothing else.
use mathlib.Core.Path.{subst}
use mathlib.Core.Logic.{if_pos, if_neg}
use luminal.Prelude.{ℕ, ◌≡◌, ◌∙◌, sym, List, [], ◌∷◌, Bool, All, All-append, update, ℕ_discrete}
use luminal.Crossbeam.{Crossbeam, TryRecv, Receives}
use luminal.Task.{Future, Task}
use luminal.Task.Poll.{ready}
use luminal.Task.Poll.Promise.{Meets, Honest, Trusted, poll-Honest}
use luminal.Waker.{Heap}
use luminal.World.{World}
use luminal.JoinHandle.{poll_handle, received}
use luminal.Executor.{spawn, deliver, abandon, host, poll_task}
use luminal.Executor.Polls.{poll_task_lem, woken}
use luminal.Worker.Invariant.{Stocked, Runs}

module _ {V : Type 0} (X : Crossbeam (Task V) V) (spec : ℕ → V → Type 0) where
  abbrev pub Good : Task V → Type 0
  Good t = Honest spec t.future

  pub record Kept (w : World X) : Type 0 where
    pub tasks : Stocked X Good w
    pub results : (c : ℕ) → All (spec c) (X.queued (w.channels c))

  update-results :
      (cs : ℕ → X.Channel) (c : ℕ) (x : X.Channel)
      → ((d : ℕ) → All (spec d) (X.queued (cs d)))
      → All (spec c) (X.queued x)
      → (d : ℕ) → All (spec d) (X.queued (update cs c x d))
  update-results cs c x h k d = elim (ℕ_discrete c d) [
    | yes hit ↦ rw (if_pos _ hit) (subst (λ e. All (spec e) (X.queued x)) hit k)
    | no miss ↦ rw (if_neg _ miss) (h d)
  ]

  -- The channel `c` changes for one in which only allowed results are queued.
  rewired :
      (w : World X) (c : ℕ) (x : X.Channel)
      → Kept w
      → All (spec c) (X.queued x)
      → Kept (record w { channels = update w.channels c x })
  rewired w c x p k = record {
    tasks = record { waiting = p.tasks.waiting; assigned = p.tasks.assigned };
    results = update-results w.channels c x p.results k;
  }

  Receives-All :
      (P : V → Type 0) (r : TryRecv V) (src : List V) (b : Bool) (src' : List V)
      → Receives r src b src'
      → All P src
      → All P src'
  Receives-All P (TryRecv.ok v) src b src' e h = (subst (All P) e h).1
  Receives-All P TryRecv.empty src b src' e h = subst (All P) (sym e.2) tt
  Receives-All P TryRecv.disconnected src b src' e h = subst (All P) (sym e.2) tt

  Receives-first :
      (P : V → Type 0) (r : TryRecv V) (src : List V) (b : Bool) (src' : List V) (v : V)
      → Receives r src b src'
      → All P src
      → received X r ≡ ready v
      → P v
  Receives-first P (TryRecv.ok u) src b src' v e h q = subst P (cc) (subst (All P) e h).0
  Receives-first P TryRecv.empty src b src' v e h q = cc
  Receives-first P TryRecv.disconnected src b src' v e h q = cc

  pub received-Kept :
      (c : ℕ) (w : World X)
      → Kept w
      → Kept (record w { channels = update w.channels c (X.try_recv (w.channels c)).1 })
  received-Kept c w p =
      rewired w c _ p (Receives-All (spec c) _ _ _ _ (X.try_recv_lem (w.channels c)) (p.results c))

  pub spawn-Kept :
      (f : Future V) (w : World X)
      → Kept w
      → Meets spec (spec w.next_channel) f
      → Kept (spawn X f w).1
  unfolding spawn
  spawn-Kept f w p m = record {
    tasks = record {
      waiting =
          subst (All Good) (sym (X.items-push w.global_queue _))
            (All-append Good _ (_ ∷ []) p.tasks.waiting (m, tt));
      assigned = p.tasks.assigned;
    };
    results =
        update-results w.channels w.next_channel X.unbounded p.results
          (subst (All (spec w.next_channel)) (sym X.queued-unbounded) tt);
  }

  deliver-Kept : (c : ℕ) (v : V) (w : World X) → Kept w → spec c v → Kept (deliver X c v w)
  unfolding deliver
  deliver-Kept c v w p s = rewired w c _ p (
      subst (All (spec c))
        (sym (X.queued-drop_sender (X.send (w.channels c) v) ∙ X.queued-send (w.channels c) v))
        (All-append (spec c) _ (v ∷ []) (p.results c) (s, tt)))

  abandon-Kept : (c : ℕ) (w : World X) → Kept w → Kept (abandon X c w)
  unfolding abandon
  abandon-Kept c w p =
      rewired w c _ p
        (subst (All (spec c)) (sym (X.queued-drop_sender (w.channels c))) (p.results c))

  pub host-Trusted : Trusted spec (host X) Kept
  unfolding poll_handle spawn
  host-Trusted = record {
    spawn_kept = λ f w p m. spawn-Kept f w p (m (spawn X f w).0);
    join_kept = λ j w p. received-Kept j.receiver w p;
    join_allowed = λ j w v p e.
        Receives-first (spec j.receiver) _ _ _ _ v (X.try_recv_lem (w.channels j.receiver))
          (p.results j.receiver) e;
    deliver_kept = deliver-Kept;
    abandon_kept = abandon-Kept;
  }

  -- The heap of the wakers does not matter.
  with_wakers : (w : World X) (h : Heap) → Kept w → Kept (record w { wakers = h })
  with_wakers w h p = record {
    tasks = record { waiting = p.tasks.waiting; assigned = p.tasks.assigned };
    results = p.results;
  }

  poll_task-Kept :
      (t : Task V) (w : World X)
      → Good t
      → Kept w
      → Good (poll_task X t w).1 × Kept (poll_task X t w).2
  poll_task-Kept t w g p =
      let (g', p') = poll-Honest spec Kept host-Trusted t (woken X t w) g (with_wakers w _ p) in
      rw (poll_task_lem X t w) (g', with_wakers _ _ p')

  pub Kept-Runs : Runs X Good Kept
  Kept-Runs = record {
    stocked = λ w p. p.tasks;
    restocked = λ w q ds p a b. record {
      tasks = record { waiting = a; assigned = b };
      results = p.results;
    };
    counted = λ w n i p. record {
      tasks = record { waiting = p.tasks.waiting; assigned = p.tasks.assigned };
      results = p.results;
    };
    polled = poll_task-Kept;
  }
