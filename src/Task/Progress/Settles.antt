-- ===== src/Task/Progress/Settles.antt =====
-- A poll of a task in hand, when all tasks come to an end and one of them holds the sender of the
-- channel `c`, on which `v` is to come (src/runtime/task.rs).
use mathlib.Core.Path.{subst}
use luminal.Prelude.{
  ℕ, suc, ◌+◌, ◌≤◌, ◌<◌, ◌≡◌, ◌≢◌, ◌⊎◌, inl, inr, sym, List, [], ◌∷◌, ◌++◌, length, arith,
}
use luminal.Task.{Future, BoxFuture, wrapped, unit, completed, Task}
use luminal.Task.Poll.{Poll, ready, pending, Outcome, returned, panicked, Host, settle, poll_box}
use luminal.Task.Finite.{BoxCosts, ListCosts, Aims, poll_future-Aims}
use luminal.Task.Senders.{Foreign, Others, Sends, Holds, Others-snoc, Holds-snoc}
use luminal.Task.Progress.{Store}
use luminal.Task.Progress.Spends.{Spends, poll_future-Spends}

module _ {V W : Type 0} {h : Host V W} (S : Store h) where
  -- The task queue is in `Q`, and the channel `c`, which exists, is in `E`.
  abbrev pub Frame : ℕ → (List (Task V) → Type 0) → (W → Type 0) → W → Type 0
  Frame c Q E w = (c < S.next w) × Q (S.tasks w) × E w

  spawn-Frame :
      (c : ℕ) (Q : List (Task V) → Type 0) (E : W → Type 0)
      → ((l : List (Task V)) (t : Task V) → Foreign c t.future → Q l → Q (l ++ t ∷ []))
      → ((f : Future V) (w : W) → c < S.next w → E w → E (h.spawn f w).1)
      → (f : Future V) (w : W) → S.Fits (suc (length (S.tasks w)))
      → Frame c Q E w
      → Frame c Q E (h.spawn f w).1
  spawn-Frame c Q E grow keep f w room (old, q, x) =
      let (id, e) = S.spawn_tasks f w room in
      (
        omega (arith, S.spawn_next f w),
        subst Q (sym e) (grow _ _ (λ same. absurd (omega arith)) q),
        keep f w old x,
      )

  -- The three ways in which a task in hand and the queues can stand to the channel `c`.
  abbrev pub Mode : ℕ → V → BoxFuture V → W → Type 0
  Mode c v b w =
      ((Sends c v b) × Frame c (Others c) (S.Waits c) w)
      ⊎ (((Foreign c b) × Frame c (Holds c v) (S.Waits c) w)
          ⊎ ((Foreign c b) × Frame c (Others c) (S.Has c v) w))

  -- The result is still to come, or it is there.
  abbrev pub Between : ℕ → V → W → Type 0
  Between c v w = (Frame c (Holds c v) (S.Waits c) w) ⊎ (Frame c (Others c) (S.Has c v) w)

  -- What a poll of a task in hand leaves, of `suc n` polls.
  abbrev pub Leaves : ℕ → ℕ → V → Outcome (Poll (Unit {0})) × BoxFuture V × W → Type 0
  Leaves n c v (returned (ready _), b, w) =
      (n' : ℕ) × (m' : ℕ) × (n' ≤ n)
      × ListCosts n' m' (S.tasks w)
      × S.Fits (suc (length (S.tasks w) + m'))
      × Between c v w
  Leaves n c v (returned pending, b, w) =
      (a : ℕ) × (b' : ℕ) × (n' : ℕ) × (m' : ℕ) × (a + n' ≤ n)
      × BoxCosts a b' b
      × ListCosts n' m' (S.tasks w)
      × S.Fits (suc (length (S.tasks w) + (b' + m')))
      × Mode c v b w
  Leaves n c v (panicked, b, w) = ⊥

  sent : (c d : ℕ) (u v : V) (w : W) → d ≡ c → u ≡ v → S.Waits c w → S.Has c v (h.deliver d u w)
  sent c d u v w e g s =
      subst (λ i. S.Has c v (h.deliver i u w)) (sym e)
        (subst (λ x. S.Has c x (h.deliver c u w)) g (S.deliver_self c u w s))

  -- A result that is delivered does not touch the tasks.
  delivered :
      (c d : ℕ) (u : V) (w : W) (n m : ℕ) (Q : List (Task V) → Type 0) (E : W → Type 0)
      → ListCosts n m (S.tasks w)
      → S.Fits (suc (length (S.tasks w) + m))
      → c < S.next w
      → Q (S.tasks w)
      → E (h.deliver d u w)
      → ListCosts n m (S.tasks (h.deliver d u w))
        × S.Fits (suc (length (S.tasks (h.deliver d u w)) + m))
        × Frame c Q E (h.deliver d u w)
  delivered c d u w n m Q E q room old o x =
      let e = sym (S.deliver_tasks d u w) in
      (
        subst (ListCosts n m) e q,
        subst (λ l. S.Fits (suc (length l + m))) e room,
        (subst (λ k. c < k) (sym (S.deliver_next d u w)) old, subst Q e o, x),
      )

  -- The task that sends `v`.
  settle_sender :
      (n c d : ℕ) (v : V) (r : Outcome (Poll V) × Future V × W)
      → d ≡ c
      → Spends S
          (Frame c (Others c) (S.Waits c))
          (spawn-Frame c (Others c) (S.Waits c) (Others-snoc c) (λ f w. S.spawn_waits f w c))
          (suc n)
          r
      → Aims v r
      → Leaves n c v (settle h d r)
  settle_sender n c d v (returned (ready u), f, w) e (n', m', le, q, room, (old, o, s)) g =
      let (q', room', fr) =
        delivered c d u w n' m' (Others c) (S.Has c v) q room old o (sent c d u v w e g s) in
      (n', m', omega arith, q', room', inr fr)
  settle_sender n c d v (returned pending, f, w) e (a, b, n', m', le, k, q, room, fr) g =
      (a, b, n', m', omega arith, k, q, room, inl ((e, g), fr))
  settle_sender n c d v (panicked, f, w) e s g = absurd s

  -- Another task, while the queue is in `Q` and the channel in `E`.
  settle_other :
      (n c d : ℕ) (v : V) (Q : List (Task V) → Type 0) (E : W → Type 0)
      → (grow : (l : List (Task V)) (t : Task V) → Foreign c t.future → Q l → Q (l ++ t ∷ []))
      → (keep : (f : Future V) (w : W) → c < S.next w → E w → E (h.spawn f w).1)
      → ((u : V) (w : W) → E w → E (h.deliver d u w))
      → ((u : W) → Frame c Q E u → Between c v u)
      → ((b : BoxFuture V) (u : W) → Foreign c b → Frame c Q E u → Mode c v b u)
      → (r : Outcome (Poll V) × Future V × W) → d ≢ c
      → Spends S (Frame c Q E) (spawn-Frame c Q E grow keep) (suc n) r
      → Leaves n c v (settle h d r)
  settle_other n c d v Q E grow keep past after hand (returned (ready u), f, w) ne
        (n', m', le, q, room, (old, o, s)) =
      let (q', room', fr) = delivered c d u w n' m' Q E q room old o (past u w s) in
      (n', m', omega arith, q', room', after (h.deliver d u w) fr)
  settle_other n c d v Q E grow keep past after hand (returned pending, f, w) ne
        (a, b, n', m', le, k, q, room, fr) =
      (a, b, n', m', omega arith, k, q, room, hand (wrapped d f) w ne fr)
  settle_other n c d v Q E grow keep past after hand (panicked, f, w) ne s = absurd s

  pub poll_box-Leaves :
      (n c a b n' m' : ℕ) (v : V) (box : BoxFuture V) (w : W)
      → a + n' ≤ suc n
      → BoxCosts a b box
      → ListCosts n' m' (S.tasks w)
      → S.Fits (suc (length (S.tasks w) + (b + m')))
      → Mode c v box w
      → Leaves n c v (poll_box h box w)
  unfolding poll_box
  poll_box-Leaves n c a b n' m' v (wrapped d f) w le k q room (inl ((e, g), fr)) =
      settle_sender n c d v _ e
        (poll_future-Spends S (Frame c (Others c) (S.Waits c))
          (spawn-Frame c (Others c) (S.Waits c) (Others-snoc c) (λ f w. S.spawn_waits f w c)) f w a
          b n' m' (suc n) le k q room fr)
        (poll_future-Aims h v f w g)
  poll_box-Leaves n c a b n' m' v (wrapped d f) w le k q room (inr (inl (ne, fr))) =
      settle_other n c d v (Holds c v) (S.Waits c) (Holds-snoc c v) (λ f w. S.spawn_waits f w c)
        (λ u w. S.deliver_waits d c u w ne) (λ u p. inl p) (λ x u p r. inr (inl (p, r))) _ ne
        (poll_future-Spends S (Frame c (Holds c v) (S.Waits c))
          (spawn-Frame c (Holds c v) (S.Waits c) (Holds-snoc c v) (λ f w. S.spawn_waits f w c)) f w
          a b n' m' (suc n) le k q room fr)
  poll_box-Leaves n c a b n' m' v (wrapped d f) w le k q room (inr (inr (ne, fr))) =
      settle_other n c d v (Others c) (S.Has c v) (Others-snoc c) (λ f w. S.spawn_has f w c v)
        (λ u w. S.deliver_has d c u v w ne) (λ u p. inr p) (λ x u p r. inr (inr (p, r))) _ ne
        (poll_future-Spends S (Frame c (Others c) (S.Has c v))
          (spawn-Frame c (Others c) (S.Has c v) (Others-snoc c) (λ f w. S.spawn_has f w c v)) f w a
          b n' m' (suc n) le k q room fr)
  poll_box-Leaves n c a b n' m' v unit w le k q room (inl (no_sender, fr)) = absurd no_sender
  poll_box-Leaves n c a b n' m' v unit w le k q room (inr (inl (ne, fr))) =
      (n', m', omega arith, q, S.fits_less _ _ (omega arith) room, inl fr)
  poll_box-Leaves n c a b n' m' v unit w le k q room (inr (inr (ne, fr))) =
      (n', m', omega arith, q, S.fits_less _ _ (omega arith) room, inr fr)
  poll_box-Leaves n c a b n' m' v completed w le k q room md = absurd k
