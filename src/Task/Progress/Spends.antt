-- ===== src/Task/Progress/Spends.antt =====
-- A poll of a future that comes to an end (src/runtime/task.rs) spends one of its polls.
use mathlib.Core.Path.{subst}
use luminal.Prelude.{ℕ, suc, ◌+◌, ◌≤◌, sym, ap, [], ◌∷◌, length, length-append, arith}
use luminal.Task.{Future, value, yields, spawns, joins, panics, wrapped, new_task}
use luminal.Task.Poll.{Poll, ready, pending, Outcome, returned, panicked, Host, poll_future}
use luminal.Task.Finite.{Costs, ListCosts, ListCosts-snoc}
use luminal.Task.Progress.{Store}

module _ {V W : Type 0} {h : Host V W} (S : Store h) (R : W → Type 0)
    (spawn_keeps : (f : Future V) (w : W)
      → S.Fits (suc (length (S.tasks w)))
      → R w
      → R (h.spawn f w).1) where
  -- A poll that spends one of `n` polls, and keeps `R`.
  abbrev pub Spends : ℕ → Outcome (Poll V) × Future V × W → Type 0
  Spends n (returned (ready v), f, w) =
      (n' : ℕ) × (m' : ℕ) × (suc n' ≤ n)
      × ListCosts n' m' (S.tasks w)
      × S.Fits (suc (length (S.tasks w) + m'))
      × R w
  Spends n (returned pending, f, w) =
      (a : ℕ) × (b : ℕ) × (n' : ℕ) × (m' : ℕ) × (suc (a + n') ≤ n)
      × Costs a b f
      × ListCosts n' m' (S.tasks w)
      × S.Fits (suc (length (S.tasks w) + (b + m')))
      × R w
  Spends n (panicked, f, w) = ⊥

  pub poll_future-Spends :
      (f : Future V) (w : W) (a b n m N : ℕ)
      → a + n ≤ N
      → Costs a b f
      → ListCosts n m (S.tasks w)
      → S.Fits (suc (length (S.tasks w) + (b + m)))
      → R w
      → Spends N (poll_future h f w)
  unfolding poll_future
  poll_future-Spends (value v) w a b n m N le c q room r =
      (n, m, omega arith, q, S.fits_less _ _ (omega arith) room, r)
  poll_future-Spends (yields f) w a b n m N le (a', le', c) q room r =
      (a', b, n, m, omega arith, c, q, room, r)
  poll_future-Spends (spawns f k) w a b n m N le (a', b', n', m', la, lb, c, ck) q room r =
      let s = h.spawn f w in
      let (id, e) = S.spawn_tasks f w (S.fits_less _ _ (omega arith) room) in
      poll_future-Spends (k s.0) s.1 n' m' (n + a') (m + b') N (omega arith) (ck s.0)
        (subst (ListCosts (n + a') (m + b')) (sym e) (
          ListCosts-snoc n m a' b' (n + a') (m + b') (S.tasks w) _ (omega arith) (omega arith) c q))
        (S.fits_less _ _
          (omega (
            arith,
            ap length e,
            length-append (S.tasks w) (new_task id (wrapped (S.next w) f) ∷ []),
          ))
          room)
        (spawn_keeps f w (S.fits_less _ _ (omega arith) room) r)
  poll_future-Spends (joins j k) w a b n m N le c q room r = absurd c
  poll_future-Spends panics w a b n m N le c q room r = absurd c
