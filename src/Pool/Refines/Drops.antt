-- ===== src/Pool/Refines/Drops.antt =====
-- The tasks that go with a queue (src/runtime/worker.rs, src/runtime/executor.rs) are lost from the bag.
use mathlib.Core.Path.{subst}
use luminal.Prelude.{
  ℕ, suc, Bool, ◌-◌, ◌<◌, ◌≡◌, ◌==◌, refl, sym, ◌∙◌, List, [], ◌∷◌, All, some, update, Bag, ◌⊕◌,
  nothing-⊕, ⊕_assoc, ⊕_comm, bag_of, bag_of-∷, bag_of-[], if_both,
}
use luminal.Crossbeam.{Crossbeam}
use luminal.Task.{Future, BoxFuture, wrapped, unit, completed, Task}
use luminal.World.{World}
use luminal.Executor.{abandon}
use luminal.Executor.Drops.{discard, discard_all, let_go, let_go_all, let_go_queue}
use luminal.Worker.{WorkerThread, get_elem?, drop_self}
use luminal.Worker.Wiring.{IsWired}
use luminal.Pool.{Pool, forsake, discarded, Invariant}
use luminal.Pool.Contents.{bag, bag-deque, bag-steal}
use luminal.Pool.View.{view}

module _ {V : Type 0} (X : Crossbeam (Task V) V) (n : ℕ) {client : ℕ → Future V → Type 0}
    {helping : Bool} (I : Pool X → Type 0) (keeps : Invariant X client helping I) where
  discard-seen :
      (b : BoxFuture V) (w : World X) → view X n (discard X b w) ≡ discarded X b (view X n w)
  unfolding abandon forsake bag
  discard-seen (wrapped c f) w = refl
  discard-seen unit w = refl
  discard-seen completed w = refl

  -- The bag `p` with the tasks of a list besides.
  abbrev Besides : List (Task V) → Pool X → Type 0
  Besides l p = I (record p { tasks = bag_of l ⊕ p.tasks })

  lost-Besides :
      (t : Task V) (l : List (Task V)) (p : Pool X)
      → Besides (t ∷ l) p
      → Besides l (discarded X t.future p)
  unfolding forsake
  lost-Besides t l p h = gone t.future (
      keeps.lost_keeps t (record p { tasks = bag_of l ⊕ p.tasks })
        (subst (λ (b : Bag (Task V)). I (record p { tasks = b })) (rw (bag_of-∷, ⊕_assoc) refl) h))
    where
      gone :
          (b : BoxFuture V)
          → I (discarded X b (record p { tasks = bag_of l ⊕ p.tasks }))
          → Besides l (discarded X b p)
      gone (wrapped c f) i = i
      gone unit i = i
      gone completed i = i

  discard_all-Shown :
      (l : List (Task V)) (w : World X) → Besides l (view X n w) → I (view X n (discard_all X l w))
  unfolding discard_all
  discard_all-Shown [] w h =
      subst (λ (b : Bag (Task V)). I (record (view X n w) { tasks = b }))
        (rw bag_of-[] (nothing-⊕ _)) h
  discard_all-Shown (t ∷ l) w h =
      discard_all-Shown l (discard X t.future w)
        (subst (Besides l) (sym (discard-seen t.future w)) (lost-Besides t l (view X n w) h))

  let_go-Shown : (d : ℕ) (w : World X) → d < n → I (view X n w) → I (view X n (let_go X d w))
  unfolding let_go bag
  let_go-Shown d w lt h =
      let k = w.holders d - 1 in
      let u : World X = record w { holders = update w.holders d k } in
      if_both (λ (x : World X). I (view X n x)) (k == 0)
        (discard_all X (X.local (w.deques d)) (record u { deques = update w.deques d X.new_fifo }))
        u
        (discard_all-Shown (X.local (w.deques d)) _ (
          subst (λ (b : Bag (Task V)). I (record (view X n w) { tasks = b }))
            (bag-deque X n d (bag_of (X.local (w.deques d))) w X.new_fifo lt
              (rw (X.local-new_fifo, bag_of-[]) (sym (⊕_comm _ _ ∙ nothing-⊕ _))))
            h))
        h

  let_go_all-Shown :
      (l : List ℕ) (w : World X)
      → All (λ d. d < n) l
      → I (view X n w)
      → I (view X n (let_go_all X l w))
  unfolding let_go_all
  let_go_all-Shown [] w b h = h
  let_go_all-Shown (d ∷ l) w (lt, b) h = let_go_all-Shown l (let_go X d w) b (let_go-Shown d w lt h)

  pub let_go_queue-Shown : (w : World X) → I (view X n w) → I (view X n (let_go_queue X w))
  unfolding let_go_queue bag
  let_go_queue-Shown w h =
      let k = w.queue_holders - 1 in
      let u : World X = record w { queue_holders = k } in
      if_both (λ (x : World X). I (view X n x)) (k == 0)
        (discard_all X (X.items w.global_queue) (record u { global_queue = X.new })) u
        (discard_all-Shown (X.items w.global_queue) _ (
          subst (λ (b : Bag (Task V)). I (record (view X n w) { tasks = b }))
            (bag-steal X n (bag_of (X.items w.global_queue)) w X.new
              (rw (X.items-new, bag_of-[]) (sym (⊕_comm _ _ ∙ nothing-⊕ _))))
            h))
        h

  All-entries : (P : ℕ → Type 0) (l : List ℕ) → ((i v : ℕ) → get_elem? l i ≡ some v → P v) → All P l
  All-entries P [] h = tt
  All-entries P (x ∷ l) h = (h 0 x refl, All-entries P l (λ i. h (suc i)))

  -- A worker that ends.
  pub drop_self-Shown :
      (me : WorkerThread) (w : World X)
      → IsWired n me
      → I (view X n w)
      → I (view X n (drop_self X me w))
  unfolding drop_self
  drop_self-Shown me w wired h = let_go_queue-Shown _ (
      let_go_all-Shown (me.worker ∷ me.stealers) w
        (wired.home, All-entries _ me.stealers (λ i v e. (wired.victims i v e).0)) h)
