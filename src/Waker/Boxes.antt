-- ===== src/Waker/Boxes.antt =====
-- The life of one waker.
use luminal.Prelude.{◌+◌, ◌*◌, ◌≡◌, ◌∷◌, arith}
use luminal.Task.{TaskId}
use luminal.Waker.{Heap, done, align_of, create_task_waker, drop}

-- The heap with one more box for the task `id`.
abbrev pub boxed : TaskId → Heap → Heap
boxed id h = record {
  boxes = h.boxes + 1;
  live = (align_of * (h.boxes + 1), record { task_id = id }) ∷ h.live;
}

-- The address of a new waker is aligned, so that the assertion passes.
pub create_task_waker_lem :
    (id : TaskId) (h : Heap) → create_task_waker id h ≡ done (align_of * (h.boxes + 1), boxed id h)
unfolding create_task_waker
create_task_waker_lem id h = ground arith

pub drop-boxed :
    (id : TaskId) (h : Heap)
    → drop (align_of * (h.boxes + 1)) (boxed id h) ≡ done (record h { boxes = h.boxes + 1 })
unfolding drop
drop-boxed id h = ground arith
