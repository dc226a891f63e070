-- ===== src/Waker/Ownership/Soundness.antt =====
-- The boxes of the wakers (src/runtime/waker.rs) that a program owns, or has woken, are live and its own.
use mathlib.Core.Path.{subst}
use luminal.Prelude.{
  ℕ, ◌+◌, ◌*◌, ◌%◌, ◌<◌, ◌≤◌, ◌≡◌, inl, inr, refl, List, [], ◌∷◌, some, ◌==◌, if◌then◌else◌,
  Bool-cases, if_both, sym, arith,
}
use luminal.Task.{TaskId}
use luminal.Waker.{WakerData, done, align_of, deref, free, clone, drop}
use luminal.Waker.Boxes.{boxed}
use luminal.Waker.Ownership.Programs.{count, without, addresses, Program}

-- Addresses are positive, aligned, and those of boxes made so far.
abbrev Placed : ℕ → List ℕ → Type 0
Placed n [] = Unit
Placed n (a ∷ l) = (0 < a) × (a % align_of ≡ 0) × (a ≤ align_of * n) × Placed n l

pub record Sound (p : Program) : Type 0 where
  pub placed : Placed p.heap.boxes (addresses p.heap.live)
  pub single : (a : ℕ) → count a (addresses p.heap.live) ≤ 1
  pub held : (a : ℕ) → count a (addresses p.heap.live) ≡ count a p.owned + count a p.woken

Placed-suc : (n : ℕ) (l : List ℕ) → Placed n l → Placed (n + 1) l
Placed-suc n [] h = tt
Placed-suc n (a ∷ l) (x, y, z, h) = (x, y, omega arith, Placed-suc n l h)

count_above : (n a : ℕ) (l : List ℕ) → Placed n l → align_of * n < a → count a l ≡ 0
count_above n a [] p h = refl
count_above n a (b ∷ l) (x, y, z, p) h = ground (arith, count_above n a l p h)

Placed-count : (n a : ℕ) (l : List ℕ) → Placed n l → 0 < count a l → (0 < a) × (a % align_of ≡ 0)
Placed-count n a [] p h = absurd (omega arith)
Placed-count n a (b ∷ l) (x, y, z, p) h = ground (arith, Placed-count n a l p)

count-without :
    (a b : ℕ) (l : List ℕ)
    → 0 < count a l
    → count b (without a l) + (if a == b then 1 else 0) ≡ count b l
count-without a b [] h = absurd (omega arith)
count-without a b (c ∷ l) h = ground (arith, count-without a b l)

addresses-free : (a : ℕ) (l : List (ℕ × WakerData)) → addresses (free a l) ≡ without a (addresses l)
unfolding free
addresses-free a [] = refl
addresses-free a ((b, d) ∷ l) = ground (arith, addresses-free a l)

deref-some :
    (a : ℕ) (l : List (ℕ × WakerData))
    → 0 < count a (addresses l)
    → (d : WakerData) × (deref a l ≡ some d)
unfolding deref
deref-some a [] h = absurd (omega arith)
deref-some a ((b, d) ∷ l) h = elim (Bool-cases (b == a)) [
  | inl e ↦ (d, rw e)
  | inr e ↦ let (d', r) = deref-some a l (ground arith) in (d', ground (arith, e, r))
]

pub drop_lem :
    (a n : ℕ) (l : List (ℕ × WakerData))
    → Placed n (addresses l)
    → 0 < count a (addresses l)
    → drop a (record { boxes = n; live = l }) ≡ done (record { boxes = n; live = free a l })
unfolding drop
drop_lem a n l p h =
    let (d, e) = deref-some a l h in ground (arith, e, Placed-count n a (addresses l) p h)

pub clone_lem :
    (a n : ℕ) (l : List (ℕ × WakerData))
    → Placed n (addresses l)
    → 0 < count a (addresses l)
    → (d : TaskId) × (clone a (record { boxes = n; live = l })
        ≡ done (align_of * (n + 1), boxed d (record { boxes = n; live = l })))
unfolding clone
clone_lem a n l p h =
    let (d, e) = deref-some a l h in
    (d.task_id, ground (arith, e, Placed-count n a (addresses l) p h))

-- A box more, and its address among those owned.
pub boxed-Sound :
    (p : Program) (id : TaskId)
    → Sound p
    → Sound (record p { owned = (align_of * (p.heap.boxes + 1)) ∷ p.owned; heap = boxed id p.heap })
boxed-Sound p id s = record {
  placed = (omega arith, omega arith, omega arith, Placed-suc _ _ s.placed);
  single = λ a. ground (arith, s.single a, count_above p.heap.boxes a (addresses p.heap.live));
  held = λ a. omega (arith, s.held a);
}

Placed-without : (n a : ℕ) (l : List ℕ) → Placed n l → Placed n (without a l)
Placed-without n a [] p = tt
Placed-without n a (b ∷ l) (x, y, z, p) =
    if_both (Placed n) (b == a) l _ p (x, y, z, Placed-without n a l p)

pub live_of_owned :
    (p : Program) (a : ℕ) → Sound p → 0 < count a p.owned → 0 < count a (addresses p.heap.live)
live_of_owned p a s h = omega (arith, s.held a)

-- A box less, and its address no longer owned.
pub freed-Sound :
    (p : Program) (a : ℕ)
    → Sound p
    → 0 < count a p.owned
    → Sound
        (record p { owned = without a p.owned; heap = record p.heap { live = free a p.heap.live } })
freed-Sound p a s h =
    let l = addresses p.heap.live in
    record {
      placed =
          subst (Placed p.heap.boxes) (sym (addresses-free a p.heap.live))
            (Placed-without p.heap.boxes a l s.placed);
      single = λ b.
          subst (λ m. count b m ≤ 1) (sym (addresses-free a p.heap.live))
            (omega (arith, s.single b, count-without a b l (live_of_owned p a s h)));
      held = λ b.
          subst (λ m. count b m ≡ count b (without a p.owned) + count b p.woken)
            (sym (addresses-free a p.heap.live))
            (omega (
              arith,
              s.held b,
              count-without a b l (live_of_owned p a s h),
              count-without a b p.owned h,
            ));
    }

pub woken-Sound :
    (p : Program) (a : ℕ)
    → Sound p
    → 0 < count a p.owned
    → Sound (record p { owned = without a p.owned; woken = a ∷ p.woken })
woken-Sound p a s h = record {
  placed = s.placed;
  single = s.single;
  held = λ b. omega (arith, s.held b, count-without a b p.owned h);
}
