-- ===== src/Worker/Invariant/Drops.antt =====
-- The end of a worker (src/runtime/worker.rs) and of its executor keep an invariant, if it is kept when a
-- sender is dropped.
use mathlib.Core.Path.{subst}
use luminal.Prelude.{ℕ, ◌-◌, ◌==◌, sym, List, [], ◌∷◌, All, update, if_both}
use luminal.Crossbeam.{Crossbeam}
use luminal.Task.{BoxFuture, wrapped, unit, completed, Task}
use luminal.World.{World}
use luminal.Executor.{abandon}
use luminal.Executor.Drops.{discard, discard_all, let_go, let_go_all, let_go_queue}
use luminal.Worker.{WorkerThread, drop_self}
use luminal.Worker.Invariant.{update-Filled, Runs}

module _ {V : Type 0} (X : Crossbeam (Task V) V) (Good : Task V → Type 0) (K : World X → Type 0)
    (runs : Runs X Good K) (abandon_keeps : (c : ℕ) (w : World X) → K w → K (abandon X c w))
    (held : (w : World X) (h : ℕ → ℕ) (q : ℕ)
      → K w
      → K (record w { holders = h; queue_holders = q })) where
  open runs use {stocked, restocked}

  discard-K : (b : BoxFuture V) (w : World X) → K w → K (discard X b w)
  discard-K (wrapped c f) w p = abandon_keeps c w p
  discard-K unit w p = p
  discard-K completed w p = p

  discard_all-K : (l : List (Task V)) (w : World X) → K w → K (discard_all X l w)
  unfolding discard_all
  discard_all-K [] w p = p
  discard_all-K (t ∷ l) w p = discard_all-K l (discard X t.future w) (discard-K t.future w p)

  let_go-K : (d : ℕ) (w : World X) → K w → K (let_go X d w)
  unfolding let_go
  let_go-K d w p =
      let k = w.holders d - 1 in
      let u : World X = record w { holders = update w.holders d k } in
      let q : K u = held w _ w.queue_holders p in
      if_both K (k == 0)
        (discard_all X (X.local (w.deques d)) (record u { deques = update w.deques d X.new_fifo }))
        u
        (discard_all-K (X.local (w.deques d)) _ (
          restocked u w.global_queue (update w.deques d X.new_fifo) q (stocked w p).waiting (
            update-Filled X Good w.deques d X.new_fifo (stocked w p).assigned
              (subst (All Good) (sym X.local-new_fifo) tt))))
        q

  let_go_all-K : (l : List ℕ) (w : World X) → K w → K (let_go_all X l w)
  unfolding let_go_all
  let_go_all-K [] w p = p
  let_go_all-K (d ∷ l) w p = let_go_all-K l (let_go X d w) (let_go-K d w p)

  pub let_go_queue-K : (w : World X) → K w → K (let_go_queue X w)
  unfolding let_go_queue
  let_go_queue-K w p =
      let k = w.queue_holders - 1 in
      let u : World X = record w { queue_holders = k } in
      let q : K u = held w w.holders k p in
      if_both K (k == 0)
        (discard_all X (X.items w.global_queue) (record u { global_queue = X.new })) u
        (discard_all-K (X.items w.global_queue) _ (
          restocked u X.new w.deques q (subst (All Good) (sym X.items-new) tt)
            (stocked w p).assigned))
        q

  pub drop_self-K : (me : WorkerThread) (w : World X) → K w → K (drop_self X me w)
  unfolding drop_self
  drop_self-K me w p = let_go_queue-K _ (let_go_all-K (me.worker ∷ me.stealers) w p)
