-- ===== src/Task/Progress/Without.antt =====
-- A list of tasks (src/runtime/task.rs) with one of them taken out.
use mathlib.Core.Path.{subst}
use luminal.Prelude.{
  ℕ, suc, ◌+◌, ◌≡◌, inl, inr, sym, ap, List, [], ◌∷◌, ◌++◌, length, length-append, arith,
}
use luminal.Task.{Task}
use luminal.Task.Finite.{ListCosts}
use luminal.Task.Senders.{Others, Holds}

module _ {V : Type 0} where
  -- `r` is `l` without the task `t`.
  abbrev pub Without : Task V → List (Task V) → List (Task V) → Type 0
  Without t l r = (a : List (Task V)) × (b : List (Task V)) × (l ≡ a ++ t ∷ b) × (r ≡ a ++ b)

  -- The task may as well have come first.
  ListCosts-front :
      (n m : ℕ) (t : Task V) (a b : List (Task V))
      → ListCosts n m (a ++ t ∷ b)
      → ListCosts n m (t ∷ (a ++ b))
  ListCosts-front n m t [] b q = q
  ListCosts-front n m t (u ∷ a) b (x, y, n', m', hn, hm, k, q) =
      let (x', y', n2, m2, hn', hm', k', q') = ListCosts-front n' m' t a b q in
      (
        x',
        y',
        x + n2,
        y + m2,
        omega arith,
        omega arith,
        k',
        (x, y, n2, m2, omega arith, omega arith, k, q'),
      )

  Others-front :
      (c : ℕ) (t : Task V) (a b : List (Task V)) → Others c (a ++ t ∷ b) → Others c (t ∷ (a ++ b))
  Others-front c t [] b h = h
  Others-front c t (u ∷ a) b (ne, h) =
      let (first, rest) = Others-front c t a b h in (first, (ne, rest))

  Holds-front :
      (c : ℕ) (v : V) (t : Task V) (a b : List (Task V))
      → Holds c v (a ++ t ∷ b)
      → Holds c v (t ∷ (a ++ b))
  Holds-front c v t [] b h = h
  Holds-front c v t (u ∷ a) b (inl (s, o)) =
      let (first, rest) = Others-front c t a b o in inr (first, inl (s, rest))
  Holds-front c v t (u ∷ a) b (inr (ne, h)) = placed (Holds-front c v t a b h)
    where
      placed : Holds c v (t ∷ (a ++ b)) → Holds c v (t ∷ (u ∷ (a ++ b)))
      placed (inl (s, o)) = inl (s, (ne, o))
      placed (inr (first, h')) = inr (first, inr (ne, h'))

  module _ (t : Task V) (l r : List (Task V)) (out : Without t l r) where
    -- What holds of the list, if it holds of the list with the task moved to the front.
    moved :
        (P : List (Task V) → Type 0)
        → ((a b : List (Task V)) → P (a ++ t ∷ b) → P (t ∷ (a ++ b)))
        → P l
        → P (t ∷ r)
    moved P front p =
        let (a, b, e, e') = out in subst (λ x. P (t ∷ x)) (sym e') (front a b (subst P e p))

    pub ListCosts-Without : (n m : ℕ) → ListCosts n m l → ListCosts n m (t ∷ r)
    ListCosts-Without n m = moved (ListCosts n m) (ListCosts-front n m t)

    pub Others-Without : (c : ℕ) → Others c l → Others c (t ∷ r)
    Others-Without c = moved (Others c) (Others-front c t)

    pub Holds-Without : (c : ℕ) (v : V) → Holds c v l → Holds c v (t ∷ r)
    Holds-Without c v = moved (Holds c v) (Holds-front c v t)

    pub length-Without : length l ≡ suc (length r)
    length-Without =
        let (a, b, e, e') = out in
        omega (arith, ap length e, ap length e', length-append a (t ∷ b), length-append a b)
