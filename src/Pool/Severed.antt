-- ===== src/Pool/Severed.antt =====
-- A join handle whose result cannot come any more (src/runtime/join_handle.rs): its sender is gone, and
-- no result is queued.
use luminal.Prelude.{
  ℕ, ◌<◌, ◌≡◌, refl, ap, ◌==◌, if◌then◌else◌, Bool, true, false, Option, List, [], update, arith,
}
use luminal.Crossbeam.{Crossbeam, TryRecv, Receives}
use luminal.Task.{JoinHandle, Future, BoxFuture, wrapped, unit, completed, Task}
use luminal.Task.Poll.{
  Poll, ready, pending, Outcome, returned, panicked, settle, poll_box, poll, poll_future,
}
use luminal.Task.Poll.Keeps.{poll_future-Keeps}
use luminal.World.{World}
use luminal.JoinHandle.{received, poll_handle}
use luminal.Executor.BlockOn.{turn, turn_on}
use luminal.Executor.Threads.{num_workers}
use luminal.System.{System, Reach, Steps, here, onward}
use luminal.Pool.{
  Pool, put, submit, collect, complete, forsake, discarded, desk, return_task, serve, Invariant,
  Runs-I,
}
use luminal.Pool.View.{view}
use luminal.Pool.Senders.{
  Owned, submit-Owned, collect-Owned, in_hand, Owned-Invariant, vacant-Owned, sends,
}
use luminal.Pool.Refines.{Reach-Runs, Step-Shown}

module _ {V : Type 0} (X : Crossbeam (Task V) V) where
  pub record Severed (c : ℕ) (channels : ℕ → X.Channel) (next_channel : ℕ) : Type 0 where
    pub made : c < next_channel
    pub unsent : X.live (channels c) ≡ false
    pub unqueued : X.queued (channels c) ≡ []

  abbrev Cut : ℕ → Pool X → Type 0
  Cut c p = Severed c p.channels p.next_channel

  Receives-severed :
      (r : TryRecv V) (src : List V) (live : Bool) (src' : List V)
      → src ≡ []
      → live ≡ false
      → Receives r src live src'
      → (r ≡ TryRecv.disconnected) × (src' ≡ [])
  Receives-severed (TryRecv.ok a) src live src' e f h = cc
  Receives-severed TryRecv.empty src live src' e f h = cc
  Receives-severed TryRecv.disconnected src live src' e f (a, b, d) = (refl, d)

  try_recv-unqueued :
      (ch : X.Channel)
      → X.queued ch ≡ []
      → X.live ch ≡ false
      → ((X.try_recv ch).0 ≡ TryRecv.disconnected) × (X.queued (X.try_recv ch).1 ≡ [])
  try_recv-unqueued ch e f = Receives-severed _ _ _ _ e f (X.try_recv_lem ch)

  try_recv-left :
      (ch : X.Channel) → X.queued ch ≡ [] → X.live ch ≡ false → X.queued (X.try_recv ch).1 ≡ []
  try_recv-left ch e f = (try_recv-unqueued ch e f).1

  submit-Cut : (c : ℕ) (f : Future V) (p : Pool X) → Cut c p → Cut c (submit X f p).1
  unfolding submit
  submit-Cut c f p h = record {
    made = omega (arith, h.made);
    unsent = ground (arith, h.made, h.unsent);
    unqueued = ground (arith, h.made, h.unqueued);
  }

  collect-Cut : (c : ℕ) (j : JoinHandle) (p : Pool X) → Cut c p → Cut c (collect X j p).1
  unfolding collect
  collect-Cut c j p h = record {
    made = h.made;
    unsent = ground (arith, h.unsent, X.live-try_recv (p.channels j.receiver));
    unqueued = ground (arith, h.unqueued, h.unsent, try_recv-left (p.channels j.receiver));
  }

  settle-Cut :
      (c d : ℕ) (r : Outcome (Poll V) × Future V × Pool X)
      → Owned X c (if d == c then 1 else 0) r.2
      → Cut c r.2
      → Cut c (settle (desk X) d r).2
  unfolding complete forsake
  settle-Cut c d (returned (ready v), f, p) o h = record {
    made = h.made;
    unsent = ground (arith, o, h.made, h.unsent);
    unqueued = ground (arith, o, h.made, h.unsent, h.unqueued);
  }
  settle-Cut c d (returned pending, f, p) o h = h
  settle-Cut c d (panicked, f, p) o h = record {
    made = h.made;
    unsent = ground (arith, o, h.made, h.unsent);
    unqueued = ground (arith, o, h.made, h.unsent, h.unqueued);
  }

  -- A poll of a future that owns only what it may own.
  poll_box-Cut :
      (c : ℕ) (b : BoxFuture V) (p : Pool X)
      → Owned X c (sends c b) p
      → Cut c p
      → Cut c (poll_box (desk X) b p).2
  unfolding poll_box
  poll_box-Cut c (wrapped d f) p o h =
      let k = if d == c then 1 else 0 in
      let (o', h') =
        poll_future-Keeps (desk X) (λ q. (Owned X c k q) × Cut c q)
          (λ g q r. (submit-Owned X c k g q r.0, submit-Cut c g q r.1))
          (λ j q r. (collect-Owned X c k j q r.0, collect-Cut c j q r.1)) f p (o, h) in
      settle-Cut c d (poll_future (desk X) f p) o' h'
  poll_box-Cut c unit p o h = h
  poll_box-Cut c completed p o h = h

  return_task-Cut :
      (c : ℕ) (counted : Bool) (r : Outcome (Poll (Unit {0})) × Task V × Pool X)
      → Cut c r.2
      → Cut c (return_task X counted r)
  return_task-Cut c true (returned (ready _), t, p) h = h
  return_task-Cut c false (returned (ready _), t, p) h = h
  return_task-Cut c counted (returned pending, t, p) h = h
  return_task-Cut c counted (panicked, t, p) h = h

  serve-Cut :
      (c : ℕ) (counted : Bool) (t : Task V) (p : Pool X)
      → Owned X c 0 (put X t p)
      → Cut c p
      → Cut c (serve X counted t p)
  unfolding poll
  serve-Cut c counted t p o h =
      return_task-Cut c counted (poll (desk X) t p)
        (poll_box-Cut c t.future p (in_hand X c t p o) h)

  lost-Cut :
      (c : ℕ) (t : Task V) (p : Pool X)
      → Owned X c 0 (put X t p)
      → Cut c p
      → Cut c (discarded X t.future p)
  lost-Cut c t p o h = gone t.future (in_hand X c t p o)
    where
      gone : (b : BoxFuture V) → Owned X c (sends c b) p → Cut c (discarded X b p)
      gone (wrapped d f) o' = settle-Cut c d (panicked, f, p) o' h
      gone unit o' = h
      gone completed o' = h

  abbrev Lasting : ℕ → Pool X → Type 0
  Lasting c p = (Owned X c 0 p) × Cut c p

  Lasting-Invariant :
      (client : ℕ → Future V → Type 0) (helping : Bool) (c : ℕ)
      → Invariant X client helping (Lasting c)
  Lasting-Invariant client helping c =
      let owned : Invariant X client helping (Owned X c 0) = Owned-Invariant X client helping c in
      record {
        served_keeps = λ t p r. (owned.served_keeps t p r.0, serve-Cut c true t p r.0 r.1);
        helped_keeps = λ t p h r. (owned.helped_keeps t p h r.0, serve-Cut c false t p r.0 r.1);
        lost_keeps = λ t p r. (owned.lost_keeps t p r.0, lost-Cut c t p r.0 r.1);
        submitted_keeps = λ f p m r. (owned.submitted_keeps f p m r.0, submit-Cut c f p r.1);
        collected_keeps = λ j p r. (owned.collected_keeps j p r.0, collect-Cut c j p r.1);
        closed_keeps = λ p r. r;
      }

  Steps-Lasting :
      {n : ℕ} {client : ℕ → Future V → Type 0} {helping : Bool} (c : ℕ) {s t : System X}
      → Steps X n client helping s t
      → Lasting c (view X n s.world)
      → Lasting c (view X n t.world)
  Steps-Lasting c here p = p
  Steps-Lasting {n} {client} {helping} c (onward r st) p =
      Step-Shown X n (Lasting c) (Lasting-Invariant client helping c) st (Steps-Lasting c r p)

  -- A join handle that is severed stays so. Once its sender has been dropped and no result of it is
  -- queued, because its future has panicked or its result was taken before: in every state that the
  -- threads reach from there by any interleaving, a poll of the handle waits, and a turn of `block_on`
  -- on it panics. So a future that awaits such a handle never gets beyond it.
  pub Steps-Severed :
      {available : Option ℕ} {client : ℕ → Future V → Type 0} {helping : Bool} {s t : System X}
      → Reach X available client helping s
      → Steps X (num_workers available) client helping s t
      → (j : JoinHandle) → Severed j.receiver s.world.channels s.world.next_channel
      → ((poll_handle X j t.world).0 ≡ pending) × ((n : ℕ) → (turn X j n t.world).0 ≡ panicked)
  unfolding poll_handle turn
  Steps-Severed {available} {client} {helping} {s} {t} r more j h =
      let c = j.receiver in
      let owned : Owned X c 0 (view X (num_workers available) s.world) =
        Runs-I X (Owned X c 0) (Owned-Invariant X client helping c) (vacant-Owned X c)
          (Reach-Runs X r) in
      let cut = (Steps-Lasting c more (owned, h)).1 in
      let e = (try_recv-unqueued (t.world.channels c) cut.unqueued cut.unsent).0 in
      let left : World X = record t.world {
        channels = update t.world.channels c (X.try_recv (t.world.channels c)).1;
      } in
      (ap (received X) e, λ n. ap (λ a. (turn_on X a n left).0) e)
