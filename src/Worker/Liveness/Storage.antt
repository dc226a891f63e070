-- ===== src/Worker/Liveness/Storage.antt =====
-- The local queue of a worker and the global queue (src/runtime/worker.rs), one after the other, as a
-- store for tasks: a worker that is alone takes them in this order.
use luminal.Prelude.{ℕ, ◌≡◌, ◌∙◌, refl, sym, ap, List, [], ◌∷◌, ◌++◌, update, update_self}
use mathlib.Core.List.{append_assoc}
use luminal.Crossbeam.{Crossbeam}
use luminal.Task.{Task, new_id}
use luminal.Task.Progress.{Store}
use luminal.Task.Progress.Rounds.{Popped}
use luminal.World.{World}
use luminal.Executor.{spawn, spawn_internal, deliver, host}
use luminal.Executor.BlockOn.Liveness.Storage.{store}

module _ {V : Type 0} (X : Crossbeam (Task V) V) (d : ℕ) where
  pub push-last :
      (t : Task V) (w : World X)
      → X.local (w.deques d) ++ X.items (X.push w.global_queue t)
        ≡ (X.local (w.deques d) ++ X.items w.global_queue) ++ t ∷ []
  push-last t w =
      ap (λ l. X.local (w.deques d) ++ l) (X.items-push w.global_queue t)
      ∙ sym (append_assoc (X.local (w.deques d)) (X.items w.global_queue) (t ∷ []))

  -- But for the tasks, and for the id that a task draws when it is put back, as for `block_on`.
  unfoldable pub own_store : Store (host X)
  unfolding spawn spawn_internal deliver store
  own_store = record (store X) {
    tasks = λ w. X.local (w.deques d) ++ X.items w.global_queue;
    requeue =
        λ t w. record w { next_id = (new_id w.next_id).1; global_queue = X.push w.global_queue t };
    spawn_tasks = λ f w room. (record { raw = w.next_task_id }, push-last _ w);
    deliver_tasks = λ d u w. refl;
    requeue_tasks = λ t w room. push-last t w;
    requeue_next = λ t w. refl;
    requeue_waits = λ t c w e. e;
    requeue_has = λ t c v w e. e;
  }

  -- The worker takes the first task of both queues: from its own, or, if that is empty, from the global
  -- one, with others that it puts into its own.
  pub local-Popped :
      (t : Task V) (w : World X) (l : X.Worker)
      → X.local (w.deques d) ≡ t ∷ X.local l
      → Popped own_store t w (record w { deques = update w.deques d l })
  unfolding own_store store
  local-Popped t w l e = record {
    taken = (
      [],
      X.local l ++ X.items w.global_queue,
      ap (λ x. x ++ X.items w.global_queue) e,
      ap (λ x. X.local x ++ X.items w.global_queue) (update_self w.deques d l),
    );
    same_next = refl;
    same_waits = λ c x. x;
    same_has = λ c v x. x;
  }

  pub global-Popped :
      (t : Task V) (w : World X) (q : X.Injector) (ds : ℕ → X.Worker) (batch : List (Task V))
      → X.local (w.deques d) ≡ []
      → X.items w.global_queue ≡ t ∷ (batch ++ X.items q)
      → X.local (ds d) ≡ batch
      → Popped own_store t w (record w { global_queue = q; deques = ds })
  unfolding own_store store
  global-Popped t w q ds batch e f g = record {
    taken = ([], batch ++ X.items q, rw (e, f) refl, rw g refl);
    same_next = refl;
    same_waits = λ c x. x;
    same_has = λ c v x. x;
  }

  -- A blocked thread takes the first task of the global queue, whatever the worker has.
  pub helped-Popped :
      (t : Task V) (w : World X) (q : X.Injector)
      → X.items w.global_queue ≡ t ∷ X.items q
      → Popped own_store t w (record w { global_queue = q })
  unfolding own_store store
  helped-Popped t w q e = record {
    taken = (X.local (w.deques d), X.items q, ap (λ x. X.local (w.deques d) ++ x) e, refl);
    same_next = refl;
    same_waits = λ c x. x;
    same_has = λ c v x. x;
  }
