-- ===== src/Task/Poll/Maps.antt =====
-- Two runtimes that answer alike are polled alike.
use luminal.Prelude.{ℕ, ◌≡◌, refl, ap, sym, ◌∙◌, inl, inr}
use luminal.Task.{
  JoinHandle, Future, value, yields, spawns, joins, panics, BoxFuture, wrapped, unit, completed,
  Task,
}
use luminal.Task.Poll.{
  Poll, ready, pending, Outcome, returned, panicked, Host, poll_future, settle, poll_box, poll,
}
use luminal.Task.Poll.Keeps.{Poll-cases}

-- The runtime `g` does on `view w` what `h` does on `w`.
pub record Maps {V W W' : Type 0} (h : Host V W) (g : Host V W') (view : W → W') : Type 0 where
  pub spawn_maps :
      (f : Future V) (w : W) → g.spawn f (view w) ≡ ((h.spawn f w).0, view (h.spawn f w).1)
  pub join_maps :
      (j : JoinHandle) (w : W) → g.join j (view w) ≡ ((h.join j w).0, view (h.join j w).1)
  pub deliver_maps : (c : ℕ) (v : V) (w : W) → g.deliver c v (view w) ≡ view (h.deliver c v w)
  pub abandon_maps : (c : ℕ) (w : W) → g.abandon c (view w) ≡ view (h.abandon c w)

module _ {V W : Type 0} (h : Host V W) where
  -- What a future that awaits does with what the poll of the handle gives.
  abbrev pub resume : JoinHandle → (V → Future V) → Poll V × W → Outcome (Poll V) × Future V × W
  resume j k (ready v, w) = poll_future h (k v) w
  resume j k (pending, w) = (returned pending, joins j k, w)

  pub joins-resume :
      (j : JoinHandle) (k : V → Future V) (w : W)
      → poll_future h (joins j k) w ≡ resume j k (h.join j w)
  unfolding poll_future
  joins-resume j k w = elim (Poll-cases (h.join j w).0) [
    | inl (v, e) ↦ rw (e, poll_future, resume) refl
    | inr e ↦ rw (e, poll_future, resume) refl
  ]

module _ {V W W' : Type 0} {h : Host V W} {g : Host V W'} (view : W → W')
    (maps : Maps h g view) where
  abbrev pub seen : {A B : Type 0} → A × B × W → A × B × W'
  seen (a, b, w) = (a, b, view w)

  resume-seen :
      (j : JoinHandle) (k : V → Future V)
      → ((v : V) (w : W) → poll_future g (k v) (view w) ≡ seen (poll_future h (k v) w))
      → (r : Poll V × W) → resume g j k (r.0, view r.1) ≡ seen (resume h j k r)
  resume-seen j k next (ready v, w) = next v w
  resume-seen j k next (pending, w) = refl

  poll_future-seen : (f : Future V) (w : W) → poll_future g f (view w) ≡ seen (poll_future h f w)
  unfolding poll_future
  poll_future-seen (value v) w = refl
  poll_future-seen (yields f) w = refl
  poll_future-seen (spawns f k) w =
      rw (maps.spawn_maps f w) (poll_future-seen (k (h.spawn f w).0) (h.spawn f w).1)
  poll_future-seen (joins j k) w =
      joins-resume g j k (view w)
      ∙ ap (resume g j k) (maps.join_maps j w)
      ∙ resume-seen j k (λ v u. poll_future-seen (k v) u) (h.join j w)
      ∙ sym (ap seen (joins-resume h j k w))
  poll_future-seen panics w = refl

  settle-seen :
      (c : ℕ) (r : Outcome (Poll V) × Future V × W) → settle g c (seen r) ≡ seen (settle h c r)
  settle-seen c (returned (ready v), f, w) = rw (maps.deliver_maps c v w) refl
  settle-seen c (returned pending, f, w) = refl
  settle-seen c (panicked, f, w) = rw (maps.abandon_maps c w) refl

  poll_box-seen : (b : BoxFuture V) (w : W) → poll_box g b (view w) ≡ seen (poll_box h b w)
  unfolding poll_box
  poll_box-seen (wrapped c f) w =
      ap (settle g c) (poll_future-seen f w) ∙ settle-seen c (poll_future h f w)
  poll_box-seen unit w = refl
  poll_box-seen completed w = refl

  pub poll-seen : (t : Task V) (w : W) → poll g t (view w) ≡ seen (poll h t w)
  unfolding poll
  poll-seen t w = ap (λ r. (r.0, record t { future = r.1 }, r.2)) (poll_box-seen t.future w)
