-- ===== src/Pool.antt =====
-- What an executor is for its users (src/runtime/executor.rs): a bag of tasks, out of which any task
-- may be polled next, and the channels of their results. The queues, the order in them, the workers,
-- the wakers and the backoff are forgotten.
pub mod Contents
pub mod View
pub mod Refines
pub mod Senders
pub mod Severed
use mathlib.Core.Path.{subst}
use luminal.Prelude.{
  refl, ℕ, ◌+◌, ◌%◌, ◌^◌, ◌≡◌, Bool, true, false, update, if◌then◌else◌, Bag, ◌⊕◌, only, nothing,
}
use luminal.Crossbeam.{Crossbeam}
use luminal.Task.{TaskId, JoinHandle, Future, BoxFuture, wrapped, unit, completed, Task, new_task}
use luminal.Task.Poll.{Poll, ready, pending, Outcome, returned, panicked, Host, poll}
use luminal.JoinHandle.{received}

module _ {V : Type 0} (X : Crossbeam (Task V) V) where
  pub record Pool : Type 0 where
    pub tasks : Bag (Task V)
    pub shutdown : Bool
    pub next_task_id : ℕ
    pub tasks_processed : ℕ
    pub channels : ℕ → X.Channel
    pub next_channel : ℕ

  abbrev pub vacant : Pool
  vacant = record {
    tasks = nothing;
    shutdown = false;
    next_task_id = 1;
    tasks_processed = 0;
    channels = λ _. X.unbounded;
    next_channel = 0;
  }

  abbrev pub put : Task V → Pool → Pool
  put t p = record p { tasks = only t ⊕ p.tasks }

  unfoldable pub submit : Future V → Pool → JoinHandle × Pool
  submit f p =
      let id : TaskId = record { raw = p.next_task_id } in
      let c = p.next_channel in
      (
        record { id = id; receiver = c },
        record p {
          tasks = only (new_task id (wrapped c f)) ⊕ p.tasks;
          next_task_id = (p.next_task_id + 1) % 2 ^ 64;
          channels = update p.channels c X.unbounded;
          next_channel = c + 1;
        },
      )

  unfoldable pub collect : JoinHandle → Pool → Poll V × Pool
  collect j p =
      let (r, c) = X.try_recv (p.channels j.receiver) in
      (received X r, record p { channels = update p.channels j.receiver c })

  unfoldable pub complete : ℕ → V → Pool → Pool
  complete c v p = record p {
    channels = update p.channels c (X.drop_sender (X.send (p.channels c) v));
  }

  unfoldable pub forsake : ℕ → Pool → Pool
  forsake c p = record p { channels = update p.channels c (X.drop_sender (p.channels c)) }

  -- A task goes with the queue that it is in.
  abbrev pub discarded : BoxFuture V → Pool → Pool
  discarded (wrapped c f) p = forsake c p
  discarded unit p = p
  discarded completed p = p

  abbrev pub desk : Host V Pool
  desk = record { spawn = submit; join = collect; deliver = complete; abandon = forsake }

  -- A task that waits returns to the bag. Another one is gone; whether its end is counted says the
  -- first argument: a worker counts it, and a thread in `block_on` does not.
  abbrev pub return_task : Bool → Outcome (Poll (Unit {0})) × Task V × Pool → Pool
  return_task counted (returned (ready _), t, p) =
      if counted then record p { tasks_processed = (p.tasks_processed + 1) % 2 ^ 64 } else p
  return_task counted (returned pending, t, p) = put t p
  return_task counted (panicked, t, p) = p

  abbrev pub serve : Bool → Task V → Pool → Pool
  serve counted t p = return_task counted (poll desk t p)

  -- One step: any task of the bag is polled, or dropped, or the program makes a request.
  pub data Step (client : ℕ → Future V → Type 0) (helping : Bool) (p : Pool) : Pool → Type 0 where
    served :
        (t : Task V) (rest : Bag (Task V))
        → p.tasks ≡ only t ⊕ rest
        → Step client helping p (serve true t (record p { tasks = rest }))
    helped :
        (t : Task V) (rest : Bag (Task V))
        → helping ≡ true
        → p.tasks ≡ only t ⊕ rest
        → Step client helping p (serve false t (record p { tasks = rest }))
    lost :
        (t : Task V) (rest : Bag (Task V))
        → p.tasks ≡ only t ⊕ rest
        → Step client helping p (discarded t.future (record p { tasks = rest }))
    submitted : (f : Future V) → client p.next_channel f → Step client helping p (submit f p).1
    collected : (j : JoinHandle) → Step client helping p (collect j p).1
    closed : Step client helping p (record p { shutdown = true })

  pub data Runs (client : ℕ → Future V → Type 0) (helping : Bool) : Pool → Type 0 where
    begin : Runs client helping vacant
    later : {p q : Pool} → Runs client helping p → Step client helping p q → Runs client helping q

  -- What every step of the bag keeps. A task that is polled is out of the bag meanwhile.
  pub record Invariant (client : ℕ → Future V → Type 0) (helping : Bool) (I : Pool → Type 0)
      : Type 0 where
    pub served_keeps : (t : Task V) (p : Pool) → I (put t p) → I (serve true t p)
    pub helped_keeps : (t : Task V) (p : Pool) → helping ≡ true → I (put t p) → I (serve false t p)
    pub lost_keeps : (t : Task V) (p : Pool) → I (put t p) → I (discarded t.future p)
    pub submitted_keeps :
        (f : Future V) (p : Pool) → client p.next_channel f → I p → I (submit f p).1
    pub collected_keeps : (j : JoinHandle) (p : Pool) → I p → I (collect j p).1
    pub closed_keeps : (p : Pool) → I p → I (record p { shutdown = true })

  module _ {client : ℕ → Future V → Type 0} {helping : Bool} (I : Pool → Type 0)
      (keeps : Invariant client helping I) where
    pub Step-I : {p q : Pool} → Step client helping p q → I p → I q
    Step-I {p} (served t rest e) i =
        keeps.served_keeps t (record p { tasks = rest })
          (subst (λ (b : Bag (Task V)). I (record p { tasks = b })) e i)
    Step-I {p} (helped t rest h e) i =
        keeps.helped_keeps t (record p { tasks = rest }) h
          (subst (λ (b : Bag (Task V)). I (record p { tasks = b })) e i)
    Step-I {p} (lost t rest e) i =
        keeps.lost_keeps t (record p { tasks = rest })
          (subst (λ (b : Bag (Task V)). I (record p { tasks = b })) e i)
    Step-I {p} (submitted f m) i = keeps.submitted_keeps f p m i
    Step-I {p} (collected j) i = keeps.collected_keeps j p i
    Step-I {p} closed i = keeps.closed_keeps p i

    pub Runs-I : I vacant → {p : Pool} → Runs client helping p → I p
    Runs-I i begin = i
    Runs-I i (later r st) = Step-I st (Runs-I i r)

  -- To be reachable is such a property.
  pub Runs-Invariant :
      (client : ℕ → Future V → Type 0) (helping : Bool)
      → Invariant client helping (Runs client helping)
  Runs-Invariant client helping = record {
    served_keeps = λ t p r. later r (served t p.tasks refl);
    helped_keeps = λ t p h r. later r (helped t p.tasks h refl);
    lost_keeps = λ t p r. later r (lost t p.tasks refl);
    submitted_keeps = λ f p m r. later r (submitted f m);
    collected_keeps = λ j p r. later r (collected j);
    closed_keeps = λ p r. later r closed;
  }
