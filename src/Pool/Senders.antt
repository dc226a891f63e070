-- ===== src/Pool/Senders.antt =====
-- Who will send the result of a spawned future (src/runtime/executor.rs): in every interleaving of the
-- threads of an executor, one queued task, until the result is sent or the future has panicked.
use luminal.Prelude.{
  ℕ, ◌+◌, ◌≡◌, ltb, ◌==◌, if◌then◌else◌, Bool, true, false, Option, arith, Bag, only, weigh,
  weigh-⊕, weigh-only, weigh-nothing,
}
use luminal.Crossbeam.{Crossbeam}
use luminal.Task.{JoinHandle, Future, BoxFuture, wrapped, unit, completed, Task, new_task}
use luminal.Task.Poll.{
  Poll, ready, pending, Outcome, returned, panicked, settle, poll_box, poll, poll_future,
}
use luminal.Task.Poll.Keeps.{poll_future-Keeps}
use luminal.Executor.Threads.{num_workers}
use luminal.System.{System, Reach}
use luminal.Pool.{
  Pool, vacant, put, submit, collect, complete, forsake, discarded, desk, return_task, serve,
  Invariant, Runs-I,
}
use luminal.Pool.Contents.{bag}
use luminal.Pool.View.{view}
use luminal.Pool.Refines.{Reach-Runs}

-- 1 if the future owns the sender of the channel `c`.
abbrev pub sends : {V : Type 0} → ℕ → BoxFuture V → ℕ
sends c (wrapped d f) = if d == c then 1 else 0
sends c unit = 0
sends c completed = 0

module _ {V : Type 0} (X : Crossbeam (Task V) V) where
  -- The queued tasks that own the sender of the channel `c`.
  abbrev pub senders : ℕ → Bag (Task V) → ℕ
  senders c = weigh (λ t. sends c t.future)

  -- 1 if the channel has been made and its sender has not been dropped.
  abbrev pub due : ℕ → (ℕ → X.Channel) → ℕ → ℕ
  due c channels next_channel =
      if ltb c next_channel then if X.live (channels c) then 1 else 0 else 0

  -- The same, with `k` senders of the channel out of the bag.
  abbrev pub Owned : ℕ → ℕ → Pool X → Type 0
  Owned c k p = k + senders c p.tasks ≡ due c p.channels p.next_channel

  pub submit-Owned :
      (c k : ℕ) (f : Future V) (p : Pool X) → Owned c k p → Owned c k (submit X f p).1
  unfolding submit
  submit-Owned c k f p h = ground (
    arith,
    h,
    X.live-unbounded,
    weigh-⊕ (λ (t : Task V). sends c t.future)
        (only (new_task (record { raw = p.next_task_id }) (wrapped p.next_channel f))) p.tasks,
    weigh-only (λ (t : Task V). sends c t.future)
        (new_task (record { raw = p.next_task_id }) (wrapped p.next_channel f)),
  )

  pub collect-Owned :
      (c k : ℕ) (j : JoinHandle) (p : Pool X) → Owned c k p → Owned c k (collect X j p).1
  unfolding collect
  collect-Owned c k j p h = ground (arith, h, X.live-try_recv (p.channels j.receiver))

  -- A poll of a future in the bag; a future that has ended owns no sender.
  abbrev pub Polled : ℕ → Outcome (Poll (Unit {0})) × BoxFuture V × Pool X → Type 0
  Polled c (returned (ready _), b, p) = Owned c 0 p
  Polled c (returned pending, b, p) = Owned c (sends c b) p
  Polled c (panicked, b, p) = Owned c 0 p

  settle-Polled :
      (c d : ℕ) (r : Outcome (Poll V) × Future V × Pool X)
      → Owned c (if d == c then 1 else 0) r.2
      → Polled c (settle (desk X) d r)
  unfolding complete forsake
  settle-Polled c d (returned (ready v), f, p) h =
      ground (arith, h, X.live-drop_sender (X.send (p.channels d) v))
  settle-Polled c d (returned pending, f, p) h = h
  settle-Polled c d (panicked, f, p) h = ground (arith, h, X.live-drop_sender (p.channels d))

  pub poll_box-Polled :
      (c : ℕ) (b : BoxFuture V) (p : Pool X)
      → Owned c (sends c b) p
      → Polled c (poll_box (desk X) b p)
  unfolding poll_box
  poll_box-Polled c (wrapped d f) p h = settle-Polled c d (poll_future (desk X) f p) (
      poll_future-Keeps (desk X) (Owned c (if d == c then 1 else 0))
        (submit-Owned c (if d == c then 1 else 0)) (collect-Owned c (if d == c then 1 else 0)) f p
        h)
  poll_box-Polled c unit p h = h
  poll_box-Polled c completed p h = h

  abbrev returned_box :
      Task V
      → Outcome (Poll (Unit {0})) × BoxFuture V × Pool X
      → Outcome (Poll (Unit {0})) × Task V × Pool X
  returned_box t (r, b, p) = (r, record t { future = b }, p)

  return_task-Owned :
      (c : ℕ) (counted : Bool) (t : Task V) (r : Outcome (Poll (Unit {0})) × BoxFuture V × Pool X)
      → Polled c r
      → Owned c 0 (return_task X counted (returned_box t r))
  return_task-Owned c true t (returned (ready _), b, p) h = h
  return_task-Owned c false t (returned (ready _), b, p) h = h
  return_task-Owned c counted t (returned pending, b, p) h = omega (
    arith,
    h,
    weigh-⊕ (λ (t : Task V). sends c t.future) (only (record t { future = b })) p.tasks,
    weigh-only (λ (t : Task V). sends c t.future) (record t { future = b }),
  )
  return_task-Owned c counted t (panicked, b, p) h = h

  pub in_hand :
      (c : ℕ) (t : Task V) (p : Pool X) → Owned c 0 (put X t p) → Owned c (sends c t.future) p
  in_hand c t p h = omega (
    arith,
    h,
    weigh-⊕ (λ (t : Task V). sends c t.future) (only t) p.tasks,
    weigh-only (λ (t : Task V). sends c t.future) t,
  )

  serve-Owned :
      (c : ℕ) (counted : Bool) (t : Task V) (p : Pool X)
      → Owned c 0 (put X t p)
      → Owned c 0 (serve X counted t p)
  unfolding poll
  serve-Owned c counted t p h =
      return_task-Owned c counted t (poll_box (desk X) t.future p)
        (poll_box-Polled c t.future p (in_hand c t p h))

  lost-Owned :
      (c : ℕ) (t : Task V) (p : Pool X) → Owned c 0 (put X t p) → Owned c 0 (discarded X t.future p)
  lost-Owned c t p h = gone t.future (in_hand c t p h)
    where
      gone : (b : BoxFuture V) → Owned c (sends c b) p → Owned c 0 (discarded X b p)
      gone (wrapped d f) o = settle-Polled c d (panicked, f, p) o
      gone unit o = o
      gone completed o = o

  pub Owned-Invariant :
      (client : ℕ → Future V → Type 0) (helping : Bool) (c : ℕ)
      → Invariant X client helping (Owned c 0)
  Owned-Invariant client helping c = record {
    served_keeps = serve-Owned c true;
    helped_keeps = λ t p h. serve-Owned c false t p;
    lost_keeps = lost-Owned c;
    submitted_keeps = λ f p m. submit-Owned c 0 f p;
    collected_keeps = collect-Owned c 0;
    closed_keeps = λ p h. h;
  }

  pub vacant-Owned : (c : ℕ) → Owned c 0 (vacant X)
  vacant-Owned c = ground (arith, weigh-nothing (λ (t : Task V). sends c t.future))

  -- Whatever the threads do, no task is in two queues, and as long as a result may come, the task that
  -- sends it is there: one that is lost with its queue drops its sender. In every state that they can
  -- reach by any interleaving, with any number of workers, any lost races and any panics, and for every
  -- channel `c`: exactly one task in the queues owns the sender of `c` if `c` has been made and its
  -- sender has not been dropped, and none otherwise.
  pub Reach-senders :
      {available : Option ℕ} {client : ℕ → Future V → Type 0} {helping : Bool} {s : System X}
      → Reach X available client helping s
      → (c : ℕ)
      → senders c (bag X (num_workers available) s.world)
        ≡ due c s.world.channels s.world.next_channel
  Reach-senders {available} {client} {helping} {s} r c =
      let owned : Owned c 0 (view X (num_workers available) s.world) =
        Runs-I X (Owned c 0) (Owned-Invariant client helping c) (vacant-Owned c) (Reach-Runs X r) in
      omega (arith, owned)
