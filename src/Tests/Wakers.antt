-- ===== src/Tests/Wakers.antt =====
-- A program that makes a waker, clones it, consumes the clone and drops the first.
use luminal.Prelude.{◌+◌, ◌*◌, ◌≡◌, ◌≢◌, refl, [], ◌∷◌, length, arith}
use luminal.Task.{TaskId, get, new_id}
use luminal.Task.Ids.{drawn, get-new_id_ne}
use luminal.Waker.{
  Heap, done, wake, align_of, create_task_waker, into_raw, clone, drop, deref, free, check_aligned,
}
use luminal.Waker.Boxes.{boxed}
use luminal.Waker.Ownership.{Uses-safe, Uses-leak}
use luminal.Waker.Ownership.Programs.{Program, creates, clones, wakes, drops, Uses, begin, next}

abbrev id : TaskId
id = record { raw = 7 }

abbrev two_boxes : Heap
two_boxes = record {
  boxes = 2;
  live = (16, record { task_id = id }) ∷ (8, record { task_id = id }) ∷ [];
}

abbrev cloned : Program
cloned = record { owned = 16 ∷ 8 ∷ []; woken = []; heap = two_boxes }

cloned-Uses : Uses cloned
unfolding create_task_waker clone into_raw check_aligned deref
cloned-Uses = next (next (begin 0) (creates id refl)) (clones 8 (omega arith) refl)

Uses-safe_example :
    (drop 8 two_boxes ≡ done (record two_boxes { live = free 8 two_boxes.live }))
    × ((id : TaskId) × (clone 8 two_boxes ≡ done (align_of * 3, boxed id two_boxes)))
Uses-safe_example = Uses-safe 8 cloned-Uses (omega arith)

-- The clone was woken, and the first waker dropped: the box of the clone is still there.
abbrev spent : Program
spent = record {
  owned = [];
  woken = 16 ∷ [];
  heap = record { boxes = 2; live = (16, record { task_id = id }) ∷ [] };
}

spent-Uses : Uses spent
unfolding drop wake check_aligned deref free
spent-Uses = next (next cloned-Uses (wakes 16 (omega arith))) (drops 8 (omega arith) refl)

Uses-leak_example : length spent.heap.live ≡ length spent.owned + length spent.woken
Uses-leak_example = Uses-leak spent-Uses

get-new_id_ne_example : get (new_id (drawn 2 1)).0 ≢ get (new_id (drawn 5 1)).0
get-new_id_ne_example = get-new_id_ne 1 2 5 (omega arith) (omega arith) (omega arith)
