-- ===== src/Task/Finite.antt =====
-- Futures that come to an end: how many polls they take, and what they give.
use luminal.Prelude.{ℕ, suc, ◌+◌, ◌≤◌, ◌≡◌, List, [], ◌∷◌, ◌++◌, arith}
use luminal.Task.{
  JoinHandle, Future, value, yields, spawns, joins, panics, BoxFuture, wrapped, unit, completed,
  Task,
}
use luminal.Task.Poll.{Poll, ready, pending, Outcome, returned, panicked, Host, poll_future}

module _ {V : Type 0} where
  -- `n` polls bring the future and all that it spawns to an end, and it spawns `m` tasks at most;
  -- it awaits nothing and does not panic.
  abbrev pub Costs : ℕ → ℕ → Future V → Type 0
  Costs n m (value v) = 1 ≤ n
  Costs n m (yields f) = (n' : ℕ) × (suc n' ≤ n) × Costs n' m f
  Costs n m (spawns f k) =
      (a : ℕ) × (b : ℕ) × (n' : ℕ) × (m' : ℕ) × (a + n' ≤ n)
      × (suc (b + m') ≤ m)
      × Costs a b f
      × ((j : JoinHandle) → Costs n' m' (k j))
  Costs n m (joins j k) = ⊥
  Costs n m panics = ⊥

  abbrev pub BoxCosts : ℕ → ℕ → BoxFuture V → Type 0
  BoxCosts n m (wrapped c f) = Costs n m f
  BoxCosts n m unit = 1 ≤ n
  BoxCosts n m completed = ⊥

  -- All tasks of a list together.
  abbrev pub ListCosts : ℕ → ℕ → List (Task V) → Type 0
  ListCosts n m [] = Unit
  ListCosts n m (t ∷ l) =
      (a : ℕ) × (b : ℕ) × (n' : ℕ) × (m' : ℕ) × (a + n' ≤ n)
      × (b + m' ≤ m)
      × BoxCosts a b t.future
      × ListCosts n' m' l

  pub ListCosts-snoc :
      (n m a b N M : ℕ) (l : List (Task V)) (t : Task V)
      → n + a ≤ N
      → m + b ≤ M
      → BoxCosts a b t.future
      → ListCosts n m l
      → ListCosts N M (l ++ t ∷ [])
  ListCosts-snoc n m a b N M [] t hn hm c q = (a, b, 0, 0, omega arith, omega arith, c, tt)
  ListCosts-snoc n m a b N M (u ∷ l) t hn hm c (a', b', n', m', ha, hb, c', q) = (
    a',
    b',
    n' + a,
    m' + b,
    omega arith,
    omega arith,
    c',
    ListCosts-snoc n' m' a b (n' + a) (m' + b) l t (omega arith) (omega arith) c q,
  )

  -- The result of the future, whatever handles it is given.
  abbrev pub Gives : V → Future V → Type 0
  Gives v (value u) = u ≡ v
  Gives v (yields f) = Gives v f
  Gives v (spawns f k) = (j : JoinHandle) → Gives v (k j)
  Gives v (joins j k) = ⊥
  Gives v panics = ⊥

  abbrev pub Aims : {W : Type 0} → V → Outcome (Poll V) × Future V × W → Type 0
  Aims v (returned (ready u), f, w) = u ≡ v
  Aims v (returned pending, f, w) = Gives v f
  Aims v (panicked, f, w) = ⊥

  -- A poll of a future that gives `v` ends with `v`, or leaves one that gives `v`.
  pub poll_future-Aims :
      {W : Type 0} (h : Host V W) (v : V) (f : Future V) (w : W)
      → Gives v f
      → Aims v (poll_future h f w)
  unfolding poll_future
  poll_future-Aims h v (value u) w g = g
  poll_future-Aims h v (yields f) w g = g
  poll_future-Aims h v (spawns f k) w g =
      poll_future-Aims h v (k (h.spawn f w).0) (h.spawn f w).1 (g (h.spawn f w).0)
  poll_future-Aims h v (joins j k) w g = absurd g
  poll_future-Aims h v panics w g = absurd g

  Costs-pos : (n m : ℕ) (f : Future V) → Costs n m f → 1 ≤ n
  Costs-pos n m (value v) c = c
  Costs-pos n m (yields f) (n', le, c) = omega arith
  Costs-pos n m (spawns f k) (a, b, n', m', le, me, cf, ck) = omega (arith, Costs-pos a b f cf)
  Costs-pos n m (joins j k) c = absurd c
  Costs-pos n m panics c = absurd c

  pub BoxCosts-pos : (n m : ℕ) (b : BoxFuture V) → BoxCosts n m b → 1 ≤ n
  BoxCosts-pos n m (wrapped c f) h = Costs-pos n m f h
  BoxCosts-pos n m unit h = h
  BoxCosts-pos n m completed h = absurd h

  pub ListCosts-mono :
      (n n' m : ℕ) (l : List (Task V)) → n' ≤ n → ListCosts n' m l → ListCosts n m l
  ListCosts-mono n n' m [] h q = tt
  ListCosts-mono n n' m (t ∷ l) h (a, b, x, y, hx, hy, k, q) = (a, b, x, y, omega arith, hy, k, q)
