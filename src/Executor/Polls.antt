-- ===== src/Executor/Polls.antt =====
-- Polling a task under a waker: the waker is freed again, and does not change the poll.
use luminal.Prelude.{◌+◌, ◌*◌, ◌≡◌, refl}
use luminal.Crossbeam.{Crossbeam}
use luminal.Task.{Task}
use luminal.Task.Poll.{Poll, Outcome, poll}
use luminal.Task.Poll.Keeps.{Keeps, poll-Keeps}
use luminal.Waker.{Heap, align_of}
use luminal.Waker.Boxes.{boxed, create_task_waker_lem, drop-boxed}
use luminal.World.{World}
use luminal.JoinHandle.{poll_handle}
use luminal.Executor.{spawn, deliver, abandon, host, release, poll_task}

module _ {V : Type 0} (X : Crossbeam (Task V) V) where
  -- No request of a future touches the wakers.
  host-wakers : (h : Heap) → Keeps (host X) (λ w. w.wakers ≡ h)
  unfolding spawn poll_handle deliver abandon
  host-wakers h = record {
    spawn_keeps = λ f w p. p;
    join_keeps = λ j w p. p;
    deliver_keeps = λ c v w p. p;
    abandon_keeps = λ c w p. p;
  }

  -- The world in which the task is polled: one more waker is alive.
  abbrev pub woken : Task V → World X → World X
  woken t w = record w { wakers = boxed t.id w.wakers }

  -- The poll itself.
  abbrev pub polled : Task V → World X → Outcome (Poll (Unit {0})) × Task V × World X
  polled t w = poll (host X) t (woken t w)

  -- The heap after the waker is freed.
  abbrev pub freed : Heap → Heap
  freed h = record h { boxes = h.boxes + 1 }

  release_lem :
      (t : Task V) (h : Heap) (r : Outcome (Poll (Unit {0})) × Task V × World X)
      → r.2.wakers ≡ boxed t.id h
      → release X (align_of * (h.boxes + 1)) r ≡ (r.0, r.1, record r.2 { wakers = freed h })
  release_lem t h r e = rw (e, release, drop-boxed t.id h)

  -- The waker of a poll is freed, and is not seen by the future.
  pub poll_task_lem :
      (t : Task V) (w : World X)
      → poll_task X t w
        ≡ ((polled t w).0, (polled t w).1, record (polled t w).2 { wakers = freed w.wakers })
  unfolding poll_task
  poll_task_lem t w =
      rw (create_task_waker_lem t.id w.wakers, poll_task)
        (release_lem t w.wakers (polled t w) (
          poll-Keeps (λ u. u.wakers ≡ boxed t.id w.wakers) (host-wakers (boxed t.id w.wakers)) t
            (woken t w) refl))

  -- What the requests keep and the wakers do not matter to, `poll_task` keeps.
  pub poll_task-Keeps :
      (P : World X → Type 0)
      → Keeps (host X) P
      → ((w : World X) (h : Heap) → P w → P (record w { wakers = h }))
      → (t : Task V) (w : World X) → P w
      → P (poll_task X t w).2
  poll_task-Keeps P keeps blind t w p =
      rw (poll_task_lem t w)
        (blind (polled t w).2 _ (poll-Keeps P keeps t (woken t w) (blind w _ p)))
