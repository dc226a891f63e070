-- ===== src/Executor/BlockOn/Liveness/Storage.antt =====
-- The global queue and the channels of an executor (src/runtime/executor.rs) as a store for tasks.
use mathlib.Core.Path.{subst}
use luminal.Prelude.{
  ℕ, ◌≡◌, ◌∙◌, refl, sym, ap, true, [], ◌∷◌, ◌++◌, update, update_self, update_other, arith,
}
use luminal.Crossbeam.{Crossbeam}
use luminal.Task.{Task}
use luminal.Task.Progress.{Store}
use luminal.Executor.{spawn, spawn_internal, deliver, host}

module _ {V : Type 0} (X : Crossbeam (Task V) V) where
  -- A channel that is empty, with its sender alive.
  abbrev pub Silent : X.Channel → Type 0
  Silent c = (X.queued c ≡ []) × (X.live c ≡ true)

  pub kept :
      (P : X.Channel → Type 0) (cs : ℕ → X.Channel) (d c : ℕ) (x : X.Channel)
      → (d ≡ c → ⊥)
      → P (cs c)
      → P (update cs d x c)
  kept P cs d c x ne p = subst P (sym (update_other cs d c x ne)) p

  pub placed :
      (P : X.Channel → Type 0) (cs : ℕ → X.Channel) (c : ℕ) (x : X.Channel)
      → P x
      → P (update cs c x c)
  placed P cs c x p = subst P (sym (update_self cs c x)) p

  unfoldable pub store : Store (host X)
  unfolding spawn spawn_internal deliver
  store = record {
    tasks = λ w. X.items w.global_queue;
    next = λ w. w.next_channel;
    Waits = λ c w. Silent (w.channels c);
    Has = λ c v w. X.queued (w.channels c) ≡ v ∷ [];
    Fits = λ n. Unit;
    requeue = λ t w. record w { global_queue = X.push w.global_queue t };
    fits_less = λ m n le h. tt;
    spawn_tasks = λ f w room. (record { raw = w.next_task_id }, X.items-push w.global_queue _);
    spawn_next = λ f w. omega arith;
    spawn_fresh = λ f w.
        placed Silent w.channels w.next_channel X.unbounded (X.queued-unbounded, X.live-unbounded);
    spawn_waits = λ f w c old e. kept Silent w.channels w.next_channel c _ (λ same. omega arith) e;
    spawn_has = λ f w c v old e.
        kept (λ x. X.queued x ≡ v ∷ []) w.channels w.next_channel c _ (λ same. omega arith) e;
    deliver_tasks = λ d u w. refl;
    deliver_next = λ d u w. refl;
    deliver_self = λ c v w e.
        placed (λ x. X.queued x ≡ v ∷ []) w.channels c _
          (X.queued-drop_sender _ ∙ X.queued-send (w.channels c) v ∙ ap (λ l. l ++ v ∷ []) e.0);
    deliver_waits = λ d c u w ne e. kept Silent w.channels d c _ ne e;
    deliver_has = λ d c u v w ne e. kept (λ x. X.queued x ≡ v ∷ []) w.channels d c _ ne e;
    requeue_tasks = λ t w room. X.items-push w.global_queue t;
    requeue_next = λ t w. refl;
    requeue_waits = λ t c w e. e;
    requeue_has = λ t c v w e. e;
  }
