-- ===== src/Waker/Ownership.antt =====
-- Wakers that a program creates, clones, wakes and drops in any order, each only while it owns it:
-- the contract of `RawWakerVTable` for src/runtime/waker.rs.
pub mod Programs
pub mod Soundness
use mathlib.Core.Path.{subst, subst₂}
use luminal.Prelude.{
  ℕ, ◌+◌, ◌*◌, ◌%◌, ◌<◌, ◌≤◌, ◌≡◌, inl, inr, refl, List, [], ◌∷◌, some, length, ◌==◌, if◌then◌else◌,
  Bool-cases, if_both, sym, arith,
}
use luminal.Task.{TaskId}
use luminal.Waker.{
  WakerData, Heap, Access, done, align_of, deref, free, create_task_waker, clone, wake, wake_by_ref,
  drop,
}
use luminal.Waker.Boxes.{boxed, create_task_waker_lem}
use luminal.Waker.Ownership.Programs.{
  count, without, addresses, Program, Use, creates, clones, wakes, wakes_by_ref, drops, Uses, begin,
  next,
}
use luminal.Waker.Ownership.Soundness.{
  Sound, drop_lem, clone_lem, boxed-Sound, live_of_owned, freed-Sound, woken-Sound,
}

length-without : (a : ℕ) (l : List ℕ) → 0 < count a l → length (without a l) + 1 ≡ length l
length-without a [] h = absurd (omega arith)
length-without a (b ∷ l) h = ground (arith, length-without a l)

length-free :
    (a : ℕ) (l : List (ℕ × WakerData))
    → 0 < count a (addresses l)
    → length (free a l) + 1 ≡ length l
unfolding free
length-free a [] h = absurd (omega arith)
length-free a ((b, d) ∷ l) h = ground (arith, length-free a l)

-- The boxes are as many as the wakers that are owned or were woken.
abbrev Counted : Program → Type 0
Counted p = length p.heap.live ≡ length p.owned + length p.woken

abbrev Fine : Program → Type 0
Fine p = Sound p × Counted p

-- A waker more: `e` says that the call gave the box that a new waker gets.
grown-Fine :
    (p : Program) (id : TaskId) (a : ℕ) (h : Heap) (r : Access (ℕ × Heap))
    → r ≡ done (a, h)
    → r ≡ done (align_of * (p.heap.boxes + 1), boxed id p.heap)
    → Fine p
    → Fine (record p { owned = a ∷ p.owned; heap = h })
grown-Fine p id a h r e e' (s, c) =
    let b = align_of * (p.heap.boxes + 1) in
    let first : b ≡ a = cc in
    let second : boxed id p.heap ≡ h = cc in
    subst₂ (λ x y. Fine (record p { owned = x ∷ p.owned; heap = y })) first second
      (boxed-Sound p id s, omega (arith, c))

Use-Fine : {p q : Program} → Use p q → Fine p → Fine q
unfolding wake wake_by_ref
Use-Fine {p} (creates id {a} {h} e) f = grown-Fine p id a h _ e (create_task_waker_lem id p.heap) f
Use-Fine {p} (clones a {b} {h} own e) f =
    let (id, e') = clone_lem a p.heap.boxes p.heap.live f.0.placed (live_of_owned p a f.0 own) in
    grown-Fine p id b h _ e e' f
Use-Fine {p} (wakes a h) (s, c) =
    (woken-Sound p a s h, omega (arith, c, length-without a p.owned h))
Use-Fine {p} (wakes_by_ref a h) f = f
Use-Fine {p} (drops a {h} own e) (s, c) =
    let old = live_of_owned p a s own in
    let same : record p.heap { live = free a p.heap.live } ≡ h =
      cc (drop_lem a p.heap.boxes p.heap.live s.placed old) in
    subst (λ y. Fine (record p { owned = without a p.owned; heap = y })) same
      (
        freed-Sound p a s own,
        omega (arith, c, length-free a p.heap.live old, length-without a p.owned own),
      )

Uses-Fine : {p : Program} → Uses p → Fine p
Uses-Fine (begin n) = (record { placed = tt; single = λ a. omega arith; held = λ a. refl }, refl)
Uses-Fine (next us u) = Use-Fine u (Uses-Fine us)

-- Whatever the program did with its wakers: a waker that it owns can be dropped, which frees its box
-- and no other, and can be cloned; neither trips over an assertion or a dangling pointer.
pub Uses-safe :
    {p : Program} (a : ℕ)
    → Uses p
    → 0 < count a p.owned
    → (drop a p.heap ≡ done (record p.heap { live = free a p.heap.live }))
      × ((id : TaskId) × (clone a p.heap ≡ done (align_of * (p.heap.boxes + 1), boxed id p.heap)))
Uses-safe {p} a us own =
    let (s, c) = Uses-Fine us in
    let old = live_of_owned p a s own in
    (
      drop_lem a p.heap.boxes p.heap.live s.placed old,
      clone_lem a p.heap.boxes p.heap.live s.placed old,
    )

-- The boxes on the heap are as many as the wakers that are owned, and one more for each waker that
-- was consumed by `wake`: that box is never freed.
pub Uses-leak : {p : Program} → Uses p → length p.heap.live ≡ length p.owned + length p.woken
Uses-leak us = (Uses-Fine us).1
