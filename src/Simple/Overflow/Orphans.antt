-- ===== src/Simple/Overflow/Orphans.antt =====
-- A result queue whose sender no task holds stays empty, whatever the single-threaded executor
-- (src/runtime/simple_executor.rs) does.
use mathlib.Core.Path.{subst}
use mathlib.Core.Logic.{if_pos, if_neg}
use luminal.Prelude.{
  ℕ, zero, suc, ◌<◌, ◌≡◌, ◌≢◌, ◌∙◌, sym, ap, Option, none, some, List, [], ◌∷◌, All, All-append,
  length, update, ℕ_discrete, dec_lt, arith,
}
use luminal.Crossbeam.{Pops}
use luminal.Task.{JoinHandle, Future, BoxFuture, wrapped, unit, completed, Task}
use luminal.Task.Poll.{Poll, ready, pending, Outcome, returned, panicked, settle, poll_box, poll}
use luminal.Task.Poll.Keeps.{poll_future-Keeps}
use luminal.Waker.{Heap}
use luminal.Heapless.{Heapless}
use luminal.Simple.{
  SimpleExecutor, spawn, poll_handle, deliver, host, poll_task, finish, and_then, process_round,
  process,
}
use luminal.Simple.Polls.{poll_task_lem, woken}
use luminal.Task.Senders.{Foreign}

module _ {V : Type 0} (H : Heapless (Task V) V 1024 16) where
  -- A push adds one entry at most.
  pub push-All :
      (P : Task V → Type 0) (q : H.Deque) (t : Task V)
      → All P (H.entries q)
      → P t
      → All P (H.entries (H.push_back q t).1)
  push-All P q t h p = elim (dec_lt (length (H.entries q)) 1024) [
    | yes room ↦
        subst (All P) (sym (H.push_back_room q t room).1) (All-append P _ (t ∷ []) h (p, tt))
    | no full ↦ subst (All P) (sym (H.push_back_full q t (omega arith)).1) h
  ]

  pub Pops-All :
      (P : Task V → Type 0) (o : Option (Task V)) (src src' : List (Task V))
      → Pops o src src'
      → All P src
      → All P src'
  Pops-All P none src src' e h = subst (All P) (sym e.1) tt
  Pops-All P (some t) src src' e h = (subst (All P) e h).1

  pub Pops-head :
      (P : Task V → Type 0) (src src' : List (Task V)) (t : Task V)
      → Pops (some t) src src'
      → All P src
      → P t
  Pops-head P src src' t e h = (subst (All P) e h).0

  -- No task holds the sender of the queue `c`, which is empty.
  pub record Orphan (c : ℕ) (w : SimpleExecutor H) : Type 0 where
    pub old : c < w.next_result
    pub others : All (λ t. Foreign c t.future) (H.entries w.global_queue)
    pub silent : H.stored (w.results c) ≡ []

  Pops-nil : (o : Option V) (src src' : List V) → Pops o src src' → src ≡ [] → src' ≡ []
  Pops-nil none src src' p e = p.1
  Pops-nil (some v) src src' p e = cc

  dequeue-nil : (q : H.MpMcQueue) → H.stored q ≡ [] → H.stored (H.dequeue q).1 ≡ []
  dequeue-nil q = Pops-nil _ _ _ (H.dequeue_lem q)

  -- A change of another result queue, and one of this queue that leaves it empty.
  update-silent :
      (c d : ℕ) (rs : ℕ → H.MpMcQueue) (q : H.MpMcQueue)
      → (d ≡ c → H.stored q ≡ [])
      → H.stored (rs c) ≡ []
      → H.stored (update rs d q c) ≡ []
  update-silent c d rs q h e = elim (ℕ_discrete d c) [
    | yes hit ↦ rw (if_pos _ hit) (h hit)
    | no miss ↦ rw (if_neg _ miss) e
  ]

  pub spawn-Orphan :
      (c : ℕ) (f : Future V) (w : SimpleExecutor H) → Orphan c w → Orphan c (spawn H f w).1
  unfolding spawn
  spawn-Orphan c f w p = record {
    old = omega (arith, p.old);
    others = push-All _ _ _ p.others (λ e. absurd (omega (arith, p.old)));
    silent = update-silent c _ w.results _ (λ e. H.stored-new_queue) p.silent;
  }

  pub join-Orphan :
      (c : ℕ) (j : JoinHandle) (w : SimpleExecutor H) → Orphan c w → Orphan c (poll_handle H j w).1
  unfolding poll_handle
  join-Orphan c j w p = record {
    old = p.old;
    others = p.others;
    silent =
        update-silent c j.receiver w.results _
          (λ e. dequeue-nil _ (ap (λ i. H.stored (w.results i)) e ∙ p.silent)) p.silent;
  }

  deliver-Orphan :
      (c d : ℕ) (v : V) (w : SimpleExecutor H) → d ≢ c → Orphan c w → Orphan c (deliver H d v w)
  unfolding deliver
  deliver-Orphan c d v w ne p = record {
    old = p.old;
    others = p.others;
    silent = update-silent c d w.results _ (λ e. absurd (ne e)) p.silent;
  }

  settle-Orphan :
      (c d : ℕ) (r : Outcome (Poll V) × Future V × SimpleExecutor H)
      → d ≢ c
      → Orphan c r.2
      → (Foreign c (settle (host H) d r).1) × Orphan c (settle (host H) d r).2
  settle-Orphan c d (returned (ready v), f, w) ne p = (tt, deliver-Orphan c d v w ne p)
  settle-Orphan c d (returned pending, f, w) ne p = (ne, p)
  settle-Orphan c d (panicked, f, w) ne p = (tt, p)

  poll_box-Orphan :
      (c : ℕ) (b : BoxFuture V) (w : SimpleExecutor H)
      → Foreign c b
      → Orphan c w
      → (Foreign c (poll_box (host H) b w).1) × Orphan c (poll_box (host H) b w).2
  unfolding poll_box
  poll_box-Orphan c (wrapped d f) w ne p =
      settle-Orphan c d _ ne
        (poll_future-Keeps (host H) (Orphan c) (spawn-Orphan c) (join-Orphan c) f w p)
  poll_box-Orphan c unit w ne p = (tt, p)
  poll_box-Orphan c completed w ne p = (tt, p)

  with_wakers :
      (c : ℕ) (w : SimpleExecutor H) (h : Heap) → Orphan c w → Orphan c (record w { wakers = h })
  with_wakers c w h p = record { old = p.old; others = p.others; silent = p.silent }

  poll_task-Orphan :
      (c : ℕ) (t : Task V) (w : SimpleExecutor H)
      → Foreign c t.future
      → Orphan c w
      → (Foreign c (poll_task H t w).1.future) × Orphan c (poll_task H t w).2
  unfolding poll
  poll_task-Orphan c t w ne p =
      let (ne', p') = poll_box-Orphan c t.future (woken H t w) ne (with_wakers c w _ p) in
      rw (poll_task_lem H t w) (ne', with_wakers c _ _ p')

  finish-Orphan :
      (c : ℕ) (r : Outcome (Poll (Unit {0})) × Task V × SimpleExecutor H)
      → Foreign c r.1.future
      → Orphan c r.2
      → Orphan c (finish H r).1
  finish-Orphan c (returned (ready _), t, w) ne p = record {
    old = p.old;
    others = p.others;
    silent = p.silent;
  }
  finish-Orphan c (returned pending, t, w) ne p = record {
    old = p.old;
    others = push-All _ _ t p.others ne;
    silent = p.silent;
  }
  finish-Orphan c (panicked, t, w) ne p = p

  and_then-Orphan :
      (c : ℕ) (r : Outcome (Unit {0}) × SimpleExecutor H)
      → (rest : SimpleExecutor H → Outcome (Unit {0}) × SimpleExecutor H)
      → ((u : SimpleExecutor H) → Orphan c u → Orphan c (rest u).1)
      → Orphan c r.1
      → Orphan c (and_then H r rest).1
  and_then-Orphan c (returned _, w) rest next p = next w p
  and_then-Orphan c (panicked, w) rest next p = p

  process_round-Orphan :
      (c : ℕ) (o : Option (Task V)) (q : H.Deque) (w : SimpleExecutor H)
      → Pops o (H.entries w.global_queue) (H.entries q)
      → (rest : SimpleExecutor H → Outcome (Unit {0}) × SimpleExecutor H)
      → ((u : SimpleExecutor H) → Orphan c u → Orphan c (rest u).1)
      → Orphan c w
      → Orphan c (process_round H o (record w { global_queue = q }) rest).1
  process_round-Orphan c none q w e rest next p = record {
    old = p.old;
    others = Pops-All _ none _ _ e p.others;
    silent = p.silent;
  }
  process_round-Orphan c (some t) q w e rest next p =
      let (ne, p') =
        poll_task-Orphan c t (record w { global_queue = q })
          (Pops-head (λ u. Foreign c u.future) _ _ t e p.others)
          (record {
            old = p.old;
            others = Pops-All _ (some t) _ _ e p.others;
            silent = p.silent;
          }) in
      and_then-Orphan c _ rest next (finish-Orphan c _ ne p')

  pub process-Orphan : (c n : ℕ) (w : SimpleExecutor H) → Orphan c w → Orphan c (process H n w).1
  unfolding process
  process-Orphan c zero w p = p
  process-Orphan c (suc n) w p =
      process_round-Orphan c _ _ w (H.pop_front_lem w.global_queue) (process H n)
        (process-Orphan c n) p
