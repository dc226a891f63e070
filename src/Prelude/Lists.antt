-- ===== src/Prelude/Lists.antt =====
-- Lists measured by native numbers, and sums over the first members of a family.
use Prim.Native.Nat.{ℕ, zero, suc, ◌+◌, ◌≤◌, ◌<◌}
use mathlib.Core.Path.{◌≡◌, refl}
use mathlib.Core.Logic.{ite, ◌≢◌}
use mathlib.Core.List.{List, [], ◌∷◌, ◌++◌}
use native.Mathlib.Decide.{ℕ_discrete}
use native.Mathlib.Omega.{arith}

module _ {ℓ} {A : Type ℓ} where
  abbrev pub length : List A → ℕ
  length [] = 0
  length (x ∷ xs) = suc (length xs)

  pub length-append : (xs ys : List A) → length (xs ++ ys) ≡ length xs + length ys
  length-append [] ys = omega arith
  length-append (x ∷ xs) ys = omega (arith, length-append xs ys)

-- A predicate on every item of a list.
abbrev pub All {ℓ κ} : {A : Type ℓ} → (A → Type κ) → List A → Type κ
All Q [] = Unit
All Q (a ∷ rest) = Q a × All Q rest

pub All-append {ℓ κ} :
    {A : Type ℓ} (Q : A → Type κ) (front back : List A)
    → All Q front
    → All Q back
    → All Q (front ++ back)
All-append Q [] back p q = q
All-append Q (a ∷ front) back (p, ps) q = (p, All-append Q front back ps q)

-- A family changed at one index.
abbrev pub update {ℓ} : {A : Type ℓ} (members : ℕ → A) (i : ℕ) (x : A) → ℕ → A
update members i x j = ite (ℕ_discrete i j) x (members j)

module _ {ℓ} {A : Type ℓ} (weight : A → ℕ) where
  -- The weight of the members below a bound.
  unfoldable pub total : ℕ → (ℕ → A) → ℕ
  total zero members = 0
  total (suc k) members = weight (members k) + total k members

  -- A change beyond the bound does not count; one below it counts at its place.
  total_change :
      (members : ℕ → A) (i : ℕ) (x : A) (k : ℕ)
      → (k ≤ i → total k (update members i x) ≡ total k members)
        × (i < k → weight (members i) + total k (update members i x) ≡ weight x + total k members)
  unfolding total
  total_change members i x zero = (λ beyond. refl, λ below. absurd (omega arith))
  total_change members i x (suc k) =
      let (same, changed) = total_change members i x k in
      (λ beyond. ground (arith, same), λ below. ground (arith, same, changed))

  pub total-update :
      (members : ℕ → A) (i : ℕ) (x : A) (k : ℕ)
      → i < k
      → weight (members i) + total k (update members i x) ≡ weight x + total k members
  total-update members i x k below = (total_change members i x k).1 below

pub total-zero {ℓ} :
    {A : Type ℓ} (w : A → ℕ) (n : ℕ) (f : ℕ → A) → ((i : ℕ) → w (f i) ≡ 0) → total w n f ≡ 0
unfolding total
total-zero w zero f h = refl
total-zero w (suc n) f h = omega (arith, total-zero w n f h, h n)

pub update_self {ℓ} : {A : Type ℓ} (f : ℕ → A) (i : ℕ) (a : A) → update f i a i ≡ a
update_self f i a = ground arith

pub update_other {ℓ} : {A : Type ℓ} (f : ℕ → A) (i j : ℕ) (a : A) → i ≢ j → update f i a j ≡ f j
update_other f i j a h = ground arith
