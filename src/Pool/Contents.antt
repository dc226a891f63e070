-- ===== src/Pool/Contents.antt =====
-- The tasks of an executor in a bag: those of its global queue and of the deques of its workers.
use luminal.Prelude.{
  ℕ, zero, suc, ◌<◌, ◌≡◌, ◌≢◌, refl, ap, sym, ◌∙◌, List, [], update, update_self, arith,
  update_other, ℕ_discrete, Bag, ◌⊕◌, only, nothing, bag_of, bag_of-∷, bag_of-[], bag_of-++,
  bag_of-snoc, ⊕_comm, ⊕_assoc, ⊕_swap, ⊕_cancel, nothing-⊕,
}
use luminal.Crossbeam.{Crossbeam, Steal, Takes, TakesBatch}
use luminal.Task.{Task}
use luminal.World.{World}

module _ {V : Type 0} (X : Crossbeam (Task V) V) where
  abbrev pub in_deque : X.Worker → Bag (Task V)
  in_deque l = bag_of (X.local l)

  -- The tasks in the first `n` deques.
  unfoldable pub in_deques : ℕ → (ℕ → X.Worker) → Bag (Task V)
  in_deques zero ds = nothing
  in_deques (suc n) ds = in_deque (ds n) ⊕ in_deques n ds

  unfoldable pub bag : ℕ → World X → Bag (Task V)
  bag n w = bag_of (X.items w.global_queue) ⊕ in_deques n w.deques

  -- A new entry of the global queue.
  pub bag-push :
      (n : ℕ) (t : Task V) (w : World X)
      → bag n (record w { global_queue = X.push w.global_queue t }) ≡ only t ⊕ bag n w
  unfolding bag
  bag-push n t w = rw (X.items-push w.global_queue t, bag_of-snoc, ⊕_assoc) refl

  in_deques_beyond :
      (ds : ℕ → X.Worker) (d : ℕ) (l : X.Worker) (n : ℕ)
      → ¬ (d < n)
      → in_deques n (update ds d l) ≡ in_deques n ds
  unfolding in_deques
  in_deques_beyond ds d l zero h = refl
  in_deques_beyond ds d l (suc n) h =
      rw
        (
          update_other ds d n l (λ e. h (omega arith)),
          in_deques_beyond ds d l n (λ e. h (omega arith)),
        )
        refl

  -- A change of one deque: what it held before, and what it holds now.
  in_deques-update :
      (ds : ℕ → X.Worker) (d : ℕ) (l : X.Worker) (n : ℕ)
      → d < n
      → in_deque (ds d) ⊕ in_deques n (update ds d l) ≡ in_deque l ⊕ in_deques n ds
  unfolding in_deques
  in_deques-update ds d l zero lt = absurd (omega arith)
  in_deques-update ds d l (suc n) lt = elim (ℕ_discrete d n) [
    | yes e ↦
        rw (sym e, update_self ds d l, in_deques_beyond ds d l d (λ h. omega arith)) (⊕_swap _ _ _)
    | no e ↦
        rw
          (
            update_other ds d n l e,
            ⊕_swap (in_deque (ds d)),
            in_deques-update ds d l n (omega arith),
          )
          (⊕_swap _ _ _)
  ]

  pub in_deques-nothing :
      (n : ℕ) (ds : ℕ → X.Worker) → ((d : ℕ) → X.local (ds d) ≡ []) → in_deques n ds ≡ nothing
  unfolding in_deques
  in_deques-nothing zero ds h = refl
  in_deques-nothing (suc n) ds h = rw (h n, in_deques-nothing n ds h, bag_of-[]) (nothing-⊕ nothing)

  -- The task that an attempt has taken out of the queues.
  abbrev pub held : Steal (Task V) → Bag (Task V)
  held (Steal.success t) = only t
  held Steal.empty = nothing
  held Steal.retry = nothing

  pub Takes-held :
      (s : Steal (Task V)) (src src' : List (Task V))
      → Takes s src src'
      → bag_of src ≡ held s ⊕ bag_of src'
  Takes-held (Steal.success t) src src' e = rw (e, bag_of-∷) refl
  Takes-held Steal.empty src src' (e, f) = rw (e, f, nothing-⊕) refl
  Takes-held Steal.retry src src' e = rw (e, nothing-⊕) refl

  pub TakesBatch-held :
      (s : Steal (Task V)) (src src' dst dst' : List (Task V))
      → TakesBatch s src src' dst dst'
      → bag_of src ⊕ bag_of dst ≡ held s ⊕ bag_of src' ⊕ bag_of dst'
  TakesBatch-held (Steal.success t) src src' dst dst' (b, e, f) =
      rw (e, f, bag_of-∷, bag_of-++ b, bag_of-++ dst) (simp (⊕_assoc, ⊕_comm, ⊕_swap))
  TakesBatch-held Steal.empty src src' dst dst' (e, f, g) = rw (e, f, g, nothing-⊕) refl
  TakesBatch-held Steal.retry src src' dst dst' (e, f) = rw (e, f, nothing-⊕) refl

  -- Tasks `h` leave the deque `d`, or the global queue, and then others may come to this deque, or
  -- another deque `v`.
  pub bag-deque :
      (n d : ℕ) (h : Bag (Task V)) (w : World X) (l : X.Worker)
      → d < n
      → in_deque (w.deques d) ≡ h ⊕ in_deque l
      → bag n w ≡ h ⊕ bag n (record w { deques = update w.deques d l })
  unfolding bag
  bag-deque n d h w l lt e =
      let ds = update w.deques d l in
      let gone : in_deques n w.deques ≡ h ⊕ in_deques n ds =
        ⊕_cancel (in_deque l) _ _
          (sym (in_deques-update w.deques d l n lt) ∙ rw e (simp (⊕_assoc, ⊕_comm, ⊕_swap))) in
      rw gone (⊕_swap _ _ _)

  pub bag-steal :
      (n : ℕ) (h : Bag (Task V)) (w : World X) (q : X.Injector)
      → bag_of (X.items w.global_queue) ≡ h ⊕ bag_of (X.items q)
      → bag n w ≡ h ⊕ bag n (record w { global_queue = q })
  unfolding bag
  bag-steal n h w q e = rw (e, ⊕_assoc) refl

  pub bag-batch :
      (n d : ℕ) (h : Bag (Task V)) (w : World X) (q : X.Injector) (l : X.Worker)
      → d < n
      → bag_of (X.items w.global_queue) ⊕ in_deque (w.deques d)
        ≡ h ⊕ bag_of (X.items q) ⊕ in_deque l
      → bag n w ≡ h ⊕ bag n (record w { global_queue = q; deques = update w.deques d l })
  unfolding bag
  bag-batch n d h w q l lt e =
      let i = bag_of (X.items w.global_queue) in
      let ds = update w.deques d l in
      ⊕_cancel (in_deque l) _ _ (
        ⊕_swap _ _ _
        ∙ ap (λ b. i ⊕ b) (sym (in_deques-update w.deques d l n lt))
        ∙ sym (⊕_assoc i (in_deque (w.deques d)) (in_deques n ds))
        ∙ ap (λ b. b ⊕ in_deques n ds) e
        ∙ simp (⊕_assoc, ⊕_comm, ⊕_swap))

  pub bag-move :
      (n v d : ℕ) (h : Bag (Task V)) (w : World X) (m l : X.Worker)
      → v < n
      → d < n
      → v ≢ d
      → in_deque (w.deques v) ⊕ in_deque (w.deques d) ≡ h ⊕ in_deque m ⊕ in_deque l
      → bag n w ≡ h ⊕ bag n (record w { deques = update (update w.deques v m) d l })
  unfolding bag
  bag-move n v d h w m l lv ld ne e =
      let ds = update w.deques v m in
      let ds' = update ds d l in
      let first = in_deques-update w.deques v m n lv in
      let second : in_deque (w.deques d) ⊕ in_deques n ds' ≡ in_deque l ⊕ in_deques n ds =
        rw (sym (update_other w.deques v d m ne)) (in_deques-update ds d l n ld) in
      let gone : in_deques n w.deques ≡ h ⊕ in_deques n ds' =
        ⊕_cancel (in_deque m ⊕ in_deque l) _ _ (
          ⊕_assoc _ _ _
          ∙ ⊕_swap _ _ _
          ∙ ap (λ b. in_deque l ⊕ b) (sym first)
          ∙ ⊕_swap _ _ _
          ∙ ap (λ b. in_deque (w.deques v) ⊕ b) (sym second)
          ∙ sym (⊕_assoc _ _ _)
          ∙ ap (λ b. b ⊕ in_deques n ds') e
          ∙ simp (⊕_assoc, ⊕_comm, ⊕_swap)) in
      rw gone (⊕_swap _ _ _)
