-- ===== src/Executor/BlockOn/Handles/Polls.antt =====
-- The polls that a thread in `block_on` (src/runtime/executor.rs) does on the way to a join handle's
-- result, when all tasks in the global queue end at their first poll.
use mathlib.Core.Path.{subst}
use luminal.Prelude.{ℕ, ◌+◌, ◌≡◌, ◌∙◌, refl, ap, List, [], ◌∷◌, ◌++◌, update, arith, All-append}
use luminal.Crossbeam.{Crossbeam, TryRecv}
use luminal.Task.{JoinHandle, value, joins, panics, wrapped, Task}
use luminal.Task.Poll.{ready, returned, poll, poll_box, poll_future}
use luminal.Task.Poll.Maps.{resume, joins-resume}
use luminal.Waker.{Heap}
use luminal.World.{World}
use luminal.JoinHandle.{poll_handle, received}
use luminal.Executor.{host, deliver, poll_task}
use luminal.Executor.Polls.{poll_task_lem, freed, woken}
use luminal.Executor.BlockOn.{requeue}
use luminal.Executor.BlockOn.Liveness.Storage.{Silent, placed}
use luminal.Executor.BlockOn.Handles.Standing.{
  Entry, Lines, Ascends-snoc, Avoids-beyond, Avoids-below, All-update, Stands,
}

module _ {V : Type 0} (X : Crossbeam (Task V) V) where
  -- A task that ends at once, and one that waits for a result that is there.
  pub value-requeue :
      (c : ℕ) (v : V) (t : Task V) (w : World X)
      → t.future ≡ wrapped c (value v)
      → requeue X (poll_task X t w)
        ≡ (returned tt, record (deliver X c v w) { wakers = freed X w.wakers })
  unfolding poll poll_box poll_future deliver
  value-requeue c v t w e = rw (poll_task_lem X t w, e) refl

  joins-poll :
      (j : JoinHandle) (v : V) (w : World X)
      → (X.try_recv (w.channels j.receiver)).0 ≡ TryRecv.ok v
      → poll_future (host X) (joins j value) w ≡ (returned (ready v), panics, (poll_handle X j w).1)
  unfolding poll_future poll_handle
  joins-poll j v w e =
      let u : World X = record w {
        channels = update w.channels j.receiver (X.try_recv (w.channels j.receiver)).1;
      } in
      joins-resume (host X) j value w ∙ ap (λ r. resume (host X) j value (received X r, u)) e

  pub joins-requeue :
      (j : JoinHandle) (c : ℕ) (v : V) (t : Task V) (w : World X)
      → t.future ≡ wrapped c (joins j value)
      → (X.try_recv (w.channels j.receiver)).0 ≡ TryRecv.ok v
      → requeue X (poll_task X t w)
        ≡ (returned tt, record (deliver X c v (poll_handle X j w).1) { wakers = freed X w.wakers })
  unfolding poll poll_box deliver poll_handle
  joins-requeue j c v t w e r =
      rw (poll_task_lem X t w, poll, e, poll_box, joins-poll j v (woken X t w) r) refl

  -- The first entry of the queue comes to its end.
  pub first-Stands :
      (m c : ℕ) (v : V) (a q : List (Entry X)) (after : List (Task V)) (t : Task V) (w : World X)
      (i : X.Injector) (h : Heap)
      → Stands X m a ((c, v) ∷ q) after w
      → X.items w.global_queue ≡ t ∷ X.items i
      → (t.future ≡ wrapped c (value v))
        × Stands X m
            (a ++ (c, v) ∷ [])
            q
            after
            (record (deliver X c v (record w { global_queue = i })) { wakers = h })
  unfolding deliver
  first-Stands m c v a q after t w i h s e =
      let (t', rest, e', f, r) = s.lines in
      let same : t' ≡ t = cc in
      let left : rest ≡ X.items i = cc in
      let chan = X.drop_sender (X.send (w.channels c) v) in
      let beyond = Avoids-beyond X 0 s.middle c a s.high.0 s.low in
      (
        subst (λ (x : Task V). x.future ≡ wrapped c (value v)) same f,
        record {
          middle = c + 1;
          low = Ascends-snoc X 0 s.middle c v a s.high.0 s.low;
          high = s.high.1;
          bound = s.bound;
          lines = subst (Lines X q after) left r;
          full =
              All-append _ a ((c, v) ∷ [])
                (All-update X (λ e' x. X.queued x ≡ e'.1 ∷ []) w.channels c chan a beyond s.full)
                (
                  placed X (λ x. X.queued x ≡ v ∷ []) w.channels c chan
                      (X.queued-drop_sender _
                        ∙ X.queued-send (w.channels c) v
                        ∙ ap (λ l. l ++ v ∷ []) s.quiet.0.0),
                  tt,
                );
          quiet =
              All-update X (λ e' x. Silent X x) w.channels c chan q
                (Avoids-below X (c + 1) m c q (omega arith) s.high.1) s.quiet.1;
        },
      )
