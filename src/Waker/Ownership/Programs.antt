-- ===== src/Waker/Ownership/Programs.antt =====
-- Programs that use wakers under the contract of `RawWakerVTable` (src/runtime/waker.rs).
use luminal.Prelude.{ℕ, ◌+◌, ◌<◌, ◌≡◌, List, [], ◌∷◌, ◌==◌, if◌then◌else◌}
use luminal.Task.{TaskId}
use luminal.Waker.{WakerData, Heap, done, create_task_waker, clone, wake, wake_by_ref, drop}

abbrev pub count : ℕ → List ℕ → ℕ
count a [] = 0
count a (b ∷ l) = (if b == a then 1 else 0) + count a l

abbrev pub without : ℕ → List ℕ → List ℕ
without a [] = []
without a (b ∷ l) = if b == a then l else b ∷ without a l

abbrev pub addresses : List (ℕ × WakerData) → List ℕ
addresses [] = []
addresses ((a, d) ∷ l) = a ∷ addresses l

-- The wakers that the program owns, and those that a `wake` has consumed.
pub record Program : Type 0 where
  pub owned : List ℕ
  pub woken : List ℕ
  pub heap : Heap

pub data Use (p : Program) : Program → Type 0 where
  creates :
      (id : TaskId) {a : ℕ} {h : Heap}
      → create_task_waker id p.heap ≡ done (a, h)
      → Use p (record p { owned = a ∷ p.owned; heap = h })
  clones :
      (a : ℕ) {b : ℕ} {h : Heap}
      → 0 < count a p.owned
      → clone a p.heap ≡ done (b, h)
      → Use p (record p { owned = b ∷ p.owned; heap = h })
  wakes :
      (a : ℕ)
      → 0 < count a p.owned
      → Use p (record { owned = without a p.owned; woken = a ∷ p.woken; heap = wake a p.heap })
  wakes_by_ref : (a : ℕ) → 0 < count a p.owned → Use p (record p { heap = wake_by_ref a p.heap })
  drops :
      (a : ℕ) {h : Heap}
      → 0 < count a p.owned
      → drop a p.heap ≡ done h
      → Use p (record p { owned = without a p.owned; heap = h })

-- What the program does from a heap without wakers on.
pub data Uses : Program → Type 0 where
  begin : (n : ℕ) → Uses (record { owned = []; woken = []; heap = record { boxes = n; live = [] } })
  next : {p q : Program} → Uses p → Use p q → Uses q
