-- ===== src/Waker.antt =====
-- src/runtime/waker.rs, the std version: the data of a waker in a box, and the four functions of its
-- table. Boxes live on a heap; an address is a number, and 0 is the null pointer.
pub mod Boxes
pub mod Ownership
use luminal.Prelude.{ℕ, ◌+◌, ◌*◌, ◌%◌, List, [], ◌∷◌, Option, none, some, ◌==◌, if◌then◌else◌}
use luminal.Task.{TaskId}

-- The reference to the global queue is read by nothing.
pub record WakerData : Type 0 where
  pub task_id : TaskId

-- `live` lists the boxes that have not been freed, the newest first.
pub record Heap : Type 0 where
  pub boxes : ℕ
  pub live : List (ℕ × WakerData)

-- A failed `assert_eq!` panics; reading or freeing a box that is not live is undefined behaviour.
pub data Access (A : Type 0) : Type 0 where
  done : A → Access A
  misaligned : Access A
  dangling : Access A

infixl 5 ◌>>=◌
abbrev pub ◌>>=◌ : {A B : Type 0} → Access A → (A → Access B) → Access B
done a >>= f = f a
misaligned >>= f = misaligned
dangling >>= f = dangling

abbrev pub align_of : ℕ
align_of = 8

-- `Box::into_raw(Box::new(…))`: a new address, aligned as `repr(C, align(8))` asks.
unfoldable pub into_raw : WakerData → Heap → ℕ × Heap
into_raw d h =
    let a = align_of * (h.boxes + 1) in (a, record { boxes = h.boxes + 1; live = (a, d) ∷ h.live })

unfoldable pub deref : ℕ → List (ℕ × WakerData) → Option WakerData
deref a [] = none
deref a ((b, d) ∷ l) = if b == a then some d else deref a l

unfoldable pub free : ℕ → List (ℕ × WakerData) → List (ℕ × WakerData)
free a [] = []
free a ((b, d) ∷ l) = if b == a then l else (b, d) ∷ free a l

unfoldable pub check_aligned : {A : Type 0} → ℕ → Access A → Access A
check_aligned a k = if a % align_of == 0 then k else misaligned

unfoldable pub create_task_waker : TaskId → Heap → Access (ℕ × Heap)
unfolding into_raw check_aligned
create_task_waker id h =
    let (a, h') = into_raw (record { task_id = id }) h in check_aligned a (done (a, h'))

unfoldable pub clone : ℕ → Heap → Access (ℕ × Heap)
unfolding into_raw check_aligned deref
clone a h = check_aligned a (elim (deref a h.live) [
  | none ↦ dangling
  | some d ↦ done (into_raw (record { task_id = d.task_id }) h)
])

-- Neither function of waking does anything, and `wake` does not free the waker that it consumes.
unfoldable pub wake : ℕ → Heap → Heap
wake a h = h

unfoldable pub wake_by_ref : ℕ → Heap → Heap
wake_by_ref a h = h

unfoldable pub drop : ℕ → Heap → Access Heap
unfolding check_aligned deref free
drop a h =
    if a == 0
    then done h
    else check_aligned a (elim (deref a h.live) [
      | none ↦ dangling
      | some d ↦ done (record h { live = free a h.live })
    ])
