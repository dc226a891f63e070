-- ===== src/Pool/View.antt =====
-- The state of an executor, seen as a bag of tasks: spawning, polling a join handle and running a task
-- (src/runtime/executor.rs, src/runtime/worker.rs) are requests and steps of the bag.
use luminal.Prelude.{ℕ, ◌≡◌, refl, ap, sym, ◌∙◌, true, false, Bag}
use luminal.Crossbeam.{Crossbeam}
use luminal.Task.{wrapped, Task, new_task}
use luminal.Task.Poll.{Poll, ready, pending, Outcome, returned, panicked, poll}
use luminal.Task.Poll.Maps.{Maps, seen, poll-seen}
use luminal.World.{World}
use luminal.JoinHandle.{poll_handle}
use luminal.Executor.{spawn, spawn_internal, deliver, abandon, host, poll_task}
use luminal.Executor.Polls.{woken, poll_task_lem}
use luminal.Executor.BlockOn.{requeue}
use luminal.Worker.{finish, run_task}
use luminal.Pool.{Pool, put, submit, collect, complete, forsake, desk, return_task, serve}
use luminal.Pool.Contents.{bag, bag-push}

module _ {V : Type 0} (X : Crossbeam (Task V) V) where
  abbrev pub view : ℕ → World X → Pool X
  view n w = record {
    tasks = bag X n w;
    shutdown = w.shutdown;
    next_task_id = w.next_task_id;
    tasks_processed = w.tasks_processed;
    channels = w.channels;
    next_channel = w.next_channel;
  }

  view-push :
      (n : ℕ) (t : Task V) (w : World X)
      → view n (record w { global_queue = X.push w.global_queue t }) ≡ put X t (view n w)
  view-push n t w = ap (λ b. record (view n w) { tasks = b }) (bag-push X n t w)

  -- The executor answers as the bag does.
  pub host-Maps : (n : ℕ) → Maps (host X) (desk X) (view n)
  unfolding spawn spawn_internal submit poll_handle collect deliver complete abandon forsake bag
  host-Maps n = record {
    spawn_maps = λ f w.
        ap
          (λ (b : Bag (Task V)). (
            record { id = record { raw = w.next_task_id }; receiver = w.next_channel },
            record (view n (spawn X f w).1) { tasks = b },
          ))
          (sym (
            bag-push X n (new_task (record { raw = w.next_task_id }) (wrapped w.next_channel f))
              w));
    join_maps = λ j w. refl;
    deliver_maps = λ c v w. refl;
    abandon_maps = λ c w. refl;
  }

  -- A poll of a task: the waker and its heap are not seen.
  pub poll_task-seen :
      (n : ℕ) (t : Task V) (w : World X)
      → seen (view n) (host-Maps n) (poll_task X t w) ≡ poll (desk X) t (view n w)
  unfolding bag
  poll_task-seen n t w =
      ap (seen (view n) (host-Maps n)) (poll_task_lem X t w)
      ∙ sym (poll-seen (view n) (host-Maps n) t (woken X t w))

  finish-seen :
      (n : ℕ) (r : Outcome (Poll (Unit {0})) × Task V × World X)
      → view n (finish X r).1 ≡ return_task X true (seen (view n) (host-Maps n) r)
  unfolding bag
  finish-seen n (returned (ready _), t, w) = refl
  finish-seen n (returned pending, t, w) = view-push n t w
  finish-seen n (panicked, t, w) = refl

  requeue-seen :
      (n : ℕ) (r : Outcome (Poll (Unit {0})) × Task V × World X)
      → view n (requeue X r).1 ≡ return_task X false (seen (view n) (host-Maps n) r)
  requeue-seen n (returned (ready _), t, w) = refl
  requeue-seen n (returned pending, t, w) = view-push n t w
  requeue-seen n (panicked, t, w) = refl

  -- A worker runs a task; so does a thread that is blocked.
  pub run_task-seen :
      (n : ℕ) (t : Task V) (w : World X) → view n (run_task X t w).1 ≡ serve X true t (view n w)
  unfolding run_task
  run_task-seen n t w =
      finish-seen n (poll_task X t w) ∙ ap (return_task X true) (poll_task-seen n t w)

  pub help-seen :
      (n : ℕ) (t : Task V) (w : World X)
      → view n (requeue X (poll_task X t w)).1 ≡ serve X false t (view n w)
  help-seen n t w =
      requeue-seen n (poll_task X t w) ∙ ap (return_task X false) (poll_task-seen n t w)
