-- ===== src/Simple/Overflow.antt =====
-- A full task queue: the future that is blocked on is dropped, and the loop of `block_on` has nothing
-- to wait for.
pub mod Orphans
use mathlib.Core.Path.{subst}
use mathlib.Core.Logic.{if_pos, if_neg}
use luminal.Prelude.{
  ℕ, zero, suc, ◌≤◌, ◌<◌, ◌≡◌, ◌≢◌, ◌∙◌, sym, ap, Option, none, some, List, [], ◌∷◌, All,
  All-append, length, update, update_self, ℕ_discrete, dec_lt, arith,
}
use luminal.Crossbeam.{Pops}
use luminal.Task.{JoinHandle, Future, BoxFuture, wrapped, unit, completed, Task}
use luminal.Task.Poll.{Poll, ready, pending, Outcome, returned, panicked, settle, poll_box, poll}
use luminal.Task.Poll.Keeps.{poll_future-Keeps}
use luminal.Waker.{Heap}
use luminal.Worker.{Loop, ends, unwound, no_fuel}
use luminal.Heapless.{Heapless}
use luminal.Simple.{
  SimpleExecutor, spawn, poll_handle, deliver, host, poll_task, finish, and_then, process_round,
  process, check, checked, wait_for, block_on,
}
use luminal.Simple.Polls.{poll_task_lem, woken}
use luminal.Task.Senders.{Foreign}
use luminal.Simple.Overflow.Orphans.{Orphan, join-Orphan, process-Orphan}

module _ {V : Type 0} (H : Heapless (Task V) V 1024 16) where
  abbrev NoResult : Loop V × SimpleExecutor H → Type 0
  NoResult (ends v, w) = ⊥
  NoResult (unwound, w) = Unit
  NoResult (no_fuel, w) = Unit

  check-NoResult :
      (o : Option V) (src src' : List V) (w : SimpleExecutor H)
      → Pops o src src'
      → src ≡ []
      → (rest : SimpleExecutor H → Loop V × SimpleExecutor H) → NoResult (rest w)
      → NoResult (check H o w rest)
  check-NoResult none src src' w e nil rest p = p
  check-NoResult (some v) src src' w e nil rest p = cc

  checked-NoResult :
      (j : JoinHandle) (r : Outcome (Unit {0}) × SimpleExecutor H)
      → (rest : SimpleExecutor H → Loop V × SimpleExecutor H)
      → ((u : SimpleExecutor H) → Orphan H j.receiver u → NoResult (rest u))
      → Orphan H j.receiver r.1
      → NoResult (checked H j r rest)
  unfolding poll_handle
  checked-NoResult j (returned _, w) rest next p =
      check-NoResult _ _ _ _ (H.dequeue_lem (w.results j.receiver)) p.silent rest
        (next _ (join-Orphan H j.receiver j w p))
  checked-NoResult j (panicked, w) rest next p = tt

  wait_for-NoResult :
      (k : ℕ) (j : JoinHandle) (w : SimpleExecutor H)
      → Orphan H j.receiver w
      → NoResult (wait_for H k j w)
  unfolding wait_for
  wait_for-NoResult zero j w p = tt
  wait_for-NoResult (suc k) j w p =
      checked-NoResult j _ (wait_for H k j) (wait_for-NoResult k j)
        (process-Orphan H j.receiver 10 w p)

  NoResult-ne : (r : Loop V × SimpleExecutor H) (v : V) → NoResult r → r.0 ≢ ends v
  NoResult-ne (ends u, w) v p e = p
  NoResult-ne (unwound, w) v p e = cc
  NoResult-ne (no_fuel, w) v p e = cc

  full-Orphan :
      (f : Future V) (w : SimpleExecutor H)
      → 1024 ≤ length (H.entries w.global_queue)
      → All (λ t. Foreign w.next_result t.future) (H.entries w.global_queue)
      → Orphan H w.next_result (spawn H f w).1
  unfolding spawn
  full-Orphan f w full others = record {
    old = omega arith;
    others =
        subst (All (λ t. Foreign w.next_result t.future))
          (sym (H.push_back_full w.global_queue _ full).1) others;
    silent = ap H.stored (update_self w.results w.next_result H.new_queue) ∙ H.stored-new_queue;
  }

  -- If the task queue is full when `block_on` is called, and no queued task holds the sender of the
  -- result queue that comes next, the call never returns a result: however long it runs, and
  -- whatever the future would give at once.
  pub block_on-full :
      (k : ℕ) (f : Future V) (w : SimpleExecutor H)
      → 1024 ≤ length (H.entries w.global_queue)
      → All (λ t. Foreign w.next_result t.future) (H.entries w.global_queue)
      → (v : V) → (block_on H k f w).0 ≢ ends v
  unfolding block_on spawn
  block_on-full k f w full others v =
      NoResult-ne _ v (wait_for-NoResult k _ _ (full-Orphan f w full others))
