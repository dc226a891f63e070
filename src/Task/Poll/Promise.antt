-- ===== src/Task/Poll/Promise.antt =====
-- What may come out of the channels: `spec c v` says that the result `v` is allowed on the channel
-- `c`. A future that trusts the results it awaits, and gives only results that are allowed, keeps
-- that promise under every poll.
use luminal.Prelude.{ℕ, ◌≡◌, inl, inr}
use luminal.Task.{
  JoinHandle, Future, value, yields, spawns, joins, panics, BoxFuture, wrapped, unit, completed,
  Task,
}
use luminal.Task.Poll.{
  Poll, ready, pending, Outcome, returned, panicked, Host, poll_future, settle, poll_box, poll,
}
use luminal.Task.Poll.Keeps.{Poll-cases}

module _ {V : Type 0} (spec : ℕ → V → Type 0) where
  -- The results of a future are in `P`, if those that it awaits are allowed; and so for each future
  -- that it spawns, whatever the handle that it is given.
  abbrev pub Meets : (V → Type 0) → Future V → Type 0
  Meets P (value v) = P v
  Meets P (yields f) = Meets P f
  Meets P (spawns f k) = (j : JoinHandle) → Meets (spec j.receiver) f × Meets P (k j)
  Meets P (joins j k) = (v : V) → spec j.receiver v → Meets P (k v)
  Meets P panics = Unit

  abbrev pub Honest : BoxFuture V → Type 0
  Honest (wrapped c f) = Meets (spec c) f
  Honest unit = Unit
  Honest completed = Unit

  -- A runtime whose states `K` hold only promises.
  pub record Trusted {W : Type 0} (h : Host V W) (K : W → Type 0) : Type 0 where
    pub spawn_kept :
        (f : Future V) (w : W)
        → K w
        → ((j : JoinHandle) → Meets (spec j.receiver) f)
        → K (h.spawn f w).1
    pub join_kept : (j : JoinHandle) (w : W) → K w → K (h.join j w).1
    pub join_allowed :
        (j : JoinHandle) (w : W) (v : V) → K w → (h.join j w).0 ≡ ready v → spec j.receiver v
    pub deliver_kept : (c : ℕ) (v : V) (w : W) → K w → spec c v → K (h.deliver c v w)
    pub abandon_kept : (c : ℕ) (w : W) → K w → K (h.abandon c w)

  module _ {W : Type 0} {h : Host V W} (K : W → Type 0) (trusted : Trusted h K) where
    abbrev Polled : (V → Type 0) → Outcome (Poll V) × Future V × W → Type 0
    Polled P (returned (ready v), f, w) = P v × K w
    Polled P (returned pending, f, w) = Meets P f × K w
    Polled P (panicked, f, w) = K w

    poll_future-Polled :
        (P : V → Type 0) (f : Future V) (w : W) → Meets P f → K w → Polled P (poll_future h f w)
    unfolding poll_future
    poll_future-Polled P (value v) w m p = (m, p)
    poll_future-Polled P (yields f) w m p = (m, p)
    poll_future-Polled P (spawns f k) w m p =
        poll_future-Polled P (k (h.spawn f w).0) (h.spawn f w).1 (m (h.spawn f w).0).1
          (trusted.spawn_kept f w p (λ j. (m j).0))
    poll_future-Polled P (joins j k) w m p = elim (Poll-cases (h.join j w).0) [
      | inl (v, e) ↦
          rw (e, poll_future)
            (poll_future-Polled P (k v) (h.join j w).1 (m v (trusted.join_allowed j w v p e))
              (trusted.join_kept j w p))
      | inr e ↦ rw (e, poll_future) (m, trusted.join_kept j w p)
    ]
    poll_future-Polled P panics w m p = p

    abbrev PolledBox : Outcome (Poll (Unit {0})) × BoxFuture V × W → Type 0
    PolledBox (r, f, w) = Honest f × K w

    settle-PolledBox :
        (c : ℕ) (r : Outcome (Poll V) × Future V × W) → Polled (spec c) r → PolledBox (settle h c r)
    settle-PolledBox c (returned (ready v), f, w) p = (tt, trusted.deliver_kept c v w p.1 p.0)
    settle-PolledBox c (returned pending, f, w) p = p
    settle-PolledBox c (panicked, f, w) p = (tt, trusted.abandon_kept c w p)

    poll_box-PolledBox : (b : BoxFuture V) (w : W) → Honest b → K w → PolledBox (poll_box h b w)
    unfolding poll_box
    poll_box-PolledBox (wrapped c f) w m p =
        settle-PolledBox c (poll_future h f w) (poll_future-Polled (spec c) f w m p)
    poll_box-PolledBox unit w m p = (tt, p)
    poll_box-PolledBox completed w m p = (tt, p)

    -- On a runtime that can be trusted with its promises, a poll of a task whose future meets the
    -- promise of its channel leaves a task and a state of the runtime that do so still.
    pub poll-Honest :
        (t : Task V) (w : W)
        → Honest t.future
        → K w
        → Honest (poll h t w).1.future × K (poll h t w).2
    unfolding poll
    poll-Honest t w m p = poll_box-PolledBox t.future w m p
