-- ===== src/Simple/Polls.antt =====
-- Polling a task of the single-threaded executor under a waker.
use luminal.Prelude.{◌+◌, ◌*◌, ◌≡◌, refl}
use luminal.Task.{Task}
use luminal.Task.Poll.{Poll, Outcome, poll}
use luminal.Task.Poll.Keeps.{Keeps, poll-Keeps}
use luminal.Waker.{Heap, align_of}
use luminal.Waker.Boxes.{boxed, create_task_waker_lem, drop-boxed}
use luminal.Heapless.{Heapless}
use luminal.Simple.{
  SimpleExecutor, spawn, poll_handle, deliver, host, release, create_waker, poll_task,
}

module _ {V : Type 0} (H : Heapless (Task V) V 1024 16) where
  host-wakers : (h : Heap) → Keeps (host H) (λ w. w.wakers ≡ h)
  unfolding spawn poll_handle deliver
  host-wakers h = record {
    spawn_keeps = λ f w p. p;
    join_keeps = λ j w p. p;
    deliver_keeps = λ c v w p. p;
    abandon_keeps = λ c w p. p;
  }

  -- The executor in which the task is polled: one more waker is alive.
  abbrev pub woken : Task V → SimpleExecutor H → SimpleExecutor H
  woken t w = record w { wakers = boxed t.id w.wakers }

  abbrev pub polled :
      Task V → SimpleExecutor H → Outcome (Poll (Unit {0})) × Task V × SimpleExecutor H
  polled t w = poll (host H) t (woken t w)

  abbrev pub freed : Heap → Heap
  freed h = record h { boxes = h.boxes + 1 }

  release_lem :
      (t : Task V) (h : Heap) (r : Outcome (Poll (Unit {0})) × Task V × SimpleExecutor H)
      → r.2.wakers ≡ boxed t.id h
      → release H (align_of * (h.boxes + 1)) r ≡ (r.0, r.1, record r.2 { wakers = freed h })
  release_lem t h r e = rw (e, release, drop-boxed t.id h)

  -- A poll under a waker is the poll of the task, and the waker is freed.
  pub poll_task_lem :
      (t : Task V) (w : SimpleExecutor H)
      → poll_task H t w
        ≡ ((polled t w).0, (polled t w).1, record (polled t w).2 { wakers = freed w.wakers })
  unfolding poll_task create_waker
  poll_task_lem t w =
      rw (create_task_waker_lem t.id w.wakers, poll_task)
        (release_lem t w.wakers (polled t w) (
          poll-Keeps (λ u. u.wakers ≡ boxed t.id w.wakers) (host-wakers (boxed t.id w.wakers)) t
            (woken t w) refl))
