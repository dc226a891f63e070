-- ===== src/Task/Poll/Keeps.antt =====
-- What every request of a future keeps, a poll keeps.
use luminal.Prelude.{ℕ, ◌≡◌, inl, inr, ◌⊎◌, refl}
use luminal.Task.{
  JoinHandle, Future, value, yields, spawns, joins, panics, BoxFuture, wrapped, unit, completed,
  Task,
}
use luminal.Task.Poll.{
  Poll, ready, pending, Outcome, returned, panicked, Host, poll_future, settle, poll_box, poll,
}

pub record Keeps {V W : Type 0} (h : Host V W) (P : W → Type 0) : Type 0 where
  pub spawn_keeps : (f : Future V) (w : W) → P w → P (h.spawn f w).1
  pub join_keeps : (j : JoinHandle) (w : W) → P w → P (h.join j w).1
  pub deliver_keeps : (c : ℕ) (v : V) (w : W) → P w → P (h.deliver c v w)
  pub abandon_keeps : (c : ℕ) (w : W) → P w → P (h.abandon c w)

pub Poll-cases : {A : Type 0} (p : Poll A) → ((a : A) × (p ≡ ready a)) ⊎ (p ≡ pending)
Poll-cases (ready a) = inl (a, refl)
Poll-cases pending = inr refl

module _ {V W : Type 0} (h : Host V W) (P : W → Type 0)
    (spawn_keeps : (f : Future V) (w : W) → P w → P (h.spawn f w).1)
    (join_keeps : (j : JoinHandle) (w : W) → P w → P (h.join j w).1) where
  -- Before its end, a future only spawns and joins.
  pub poll_future-Keeps : (f : Future V) (w : W) → P w → P (poll_future h f w).2
  unfolding poll_future
  poll_future-Keeps (value v) w p = p
  poll_future-Keeps (yields f) w p = p
  poll_future-Keeps (spawns f k) w p =
      poll_future-Keeps (k (h.spawn f w).0) (h.spawn f w).1 (spawn_keeps f w p)
  poll_future-Keeps (joins j k) w p = elim (Poll-cases (h.join j w).0) [
    | inl (v, e) ↦ rw (e, poll_future) (poll_future-Keeps (k v) (h.join j w).1 (join_keeps j w p))
    | inr e ↦ rw (e, poll_future) (join_keeps j w p)
  ]
  poll_future-Keeps panics w p = p

module _ {V W : Type 0} {h : Host V W} (P : W → Type 0) (keeps : Keeps h P) where
  settle-Keeps : (c : ℕ) (r : Outcome (Poll V) × Future V × W) → P r.2 → P (settle h c r).2
  settle-Keeps c (returned (ready v), f, w) p = keeps.deliver_keeps c v w p
  settle-Keeps c (returned pending, f, w) p = p
  settle-Keeps c (panicked, f, w) p = keeps.abandon_keeps c w p

  poll_box-Keeps : (b : BoxFuture V) (w : W) → P w → P (poll_box h b w).2
  unfolding poll_box
  poll_box-Keeps (wrapped c f) w p =
      settle-Keeps c (poll_future h f w)
        (poll_future-Keeps h P keeps.spawn_keeps keeps.join_keeps f w p)
  poll_box-Keeps unit w p = p
  poll_box-Keeps completed w p = p

  pub poll-Keeps : (t : Task V) (w : W) → P w → P (poll h t w).2
  unfolding poll
  poll-Keeps t w p = poll_box-Keeps t.future w p
