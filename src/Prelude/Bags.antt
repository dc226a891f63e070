-- ===== src/Prelude/Bags.antt =====
-- Bags: lists up to order, with their sum.
use mathlib.Mathlib.Data.Multiset.Defs.{Multiset, of_list}
use mathlib.Mathlib.Data.Multiset.ZeroCons as Multiset
use mathlib.Mathlib.Data.Multiset.AddSub.{
  add, add_comm, add_assoc, add-zero, zero-add, add_right_inj,
}
use mathlib.Core.Path.{◌≡◌, refl, ap, sym, ◌∙◌}
use Prim.Native.Nat.{ℕ, ◌+◌}
use native.Mathlib.Nat.{ℕ_set}
use native.Mathlib.Omega.{arith}
use mathlib.Mathlib.Data.Quot.{induction_on₂}
use mathlib.Mathlib.Data.Multiset.Fold
use mathlib.Core.List.{List, [], ◌∷◌, ◌++◌}

abbrev pub Bag {ℓ} : Type ℓ → Type ℓ
Bag A = Multiset A

module _ {ℓ} {A : Type ℓ} where
  pub nothing : Bag A
  nothing = Multiset.zero

  unfoldable pub bag_of : List A → Bag A
  bag_of l = of_list l

  unfoldable pub only : A → Bag A
  only a = of_list (a ∷ [])

  infixr 6 ◌⊕◌
  unfoldable pub ◌⊕◌ : Bag A → Bag A → Bag A
  s ⊕ t = add s t

  pub ⊕_comm : (s t : Bag A) → s ⊕ t ≡ t ⊕ s
  unfolding ◌⊕◌
  ⊕_comm s t = add_comm s t

  pub ⊕_assoc : (s t u : Bag A) → (s ⊕ t) ⊕ u ≡ s ⊕ t ⊕ u
  unfolding ◌⊕◌
  ⊕_assoc s t u = add_assoc s t u

  pub ⊕_swap : (s t u : Bag A) → s ⊕ t ⊕ u ≡ t ⊕ s ⊕ u
  ⊕_swap s t u = sym (⊕_assoc s t u) ∙ ap (λ r. r ⊕ u) (⊕_comm s t) ∙ ⊕_assoc t s u

  pub ⊕-nothing : (s : Bag A) → s ⊕ nothing ≡ s
  unfolding ◌⊕◌ nothing
  ⊕-nothing s = add-zero s

  pub nothing-⊕ : (s : Bag A) → nothing ⊕ s ≡ s
  unfolding ◌⊕◌ nothing
  nothing-⊕ s = zero-add s

  pub ⊕_cancel : (s t u : Bag A) → s ⊕ t ≡ s ⊕ u → t ≡ u
  unfolding ◌⊕◌
  ⊕_cancel s t u = (add_right_inj s t u).0

  pub bag_of-[] : bag_of [] ≡ nothing
  unfolding bag_of nothing
  bag_of-[] = refl

  pub bag_of-∷ : (a : A) (l : List A) → bag_of (a ∷ l) ≡ only a ⊕ bag_of l
  unfolding ◌⊕◌ bag_of only
  bag_of-∷ a l = refl

  pub bag_of-++ : (l r : List A) → bag_of (l ++ r) ≡ bag_of l ⊕ bag_of r
  unfolding ◌⊕◌ bag_of
  bag_of-++ l r = refl

  pub bag_of-snoc : (l : List A) (a : A) → bag_of (l ++ a ∷ []) ≡ only a ⊕ bag_of l
  unfolding ◌⊕◌ bag_of only
  bag_of-snoc l a = add_comm (of_list l) (of_list (a ∷ []))

module _ {ℓ} {A : Type ℓ} (weight : A → ℕ) where
  -- The weight of a bag.
  unfoldable pub weigh : Bag A → ℕ
  weigh = Fold.foldr ℕ_set (λ a n. weight a + n) (λ a b n. omega arith) 0

  pub weigh-nothing : weigh nothing ≡ 0
  unfolding weigh nothing
  weigh-nothing = Fold.foldr-zero ℕ_set _ _ 0

  pub weigh-only : (a : A) → weigh (only a) ≡ weight a
  unfolding weigh only Fold.foldr
  weigh-only a = omega arith

  pub weigh-⊕ : (s t : Bag A) → weigh (s ⊕ t) ≡ weigh s + weigh t
  unfolding weigh ◌⊕◌ Fold.foldr
  weigh-⊕ s t =
      induction_on₂ {δ = λ s t. weigh (s ⊕ t) ≡ weigh s + weigh t} (λ s t. ℕ_set _ _) s t go
    where
      go : (l r : List A) → weigh (of_list l ⊕ of_list r) ≡ weigh (of_list l) + weigh (of_list r)
      go [] r = omega arith
      go (a ∷ l) r = omega (arith, go l r)
