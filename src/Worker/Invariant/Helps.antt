-- ===== src/Worker/Invariant/Helps.antt =====
-- A thread that is blocked keeps an invariant while it helps (src/runtime/executor.rs).
use luminal.Prelude.{ℕ, zero, suc, Bool, true, false}
use luminal.Crossbeam.{Crossbeam, Steal, TryRecv}
use luminal.Task.{Task}
use luminal.Task.Poll.{Outcome, returned, panicked}
use luminal.World.{World}
use luminal.Executor.{poll_task}
use luminal.Executor.BlockOn.{and_help, help_round, help, helped_turn, turn_on}
use luminal.Worker.Invariant.{Got, Takes-Got, Runs}
use luminal.Worker.Invariant.Steals.{requeue-K}

module _ {V : Type 0} (X : Crossbeam (Task V) V) (Good : Task V → Type 0) where
  module _ (K : World X → Type 0) (runs : Runs X Good K) where
    open runs use {stocked, restocked, counted, polled}

    and_help-K :
        (r : Outcome (Unit {0}) × World X) (rest : World X → Outcome Bool × World X)
        → ((u : World X) → K u → K (rest u).1)
        → K r.1
        → K (and_help X r rest).1
    and_help-K (returned _, w) rest next p = next w p
    and_help-K (panicked, w) rest next p = p

    help_round-K :
        (s : Steal (Task V)) (b : Bool) (w : World X)
        → (rest : Bool → World X → Outcome Bool × World X)
        → ((c : Bool) (u : World X) → K u → K (rest c u).1)
        → Got X Good s
        → K w
        → K (help_round X s b w rest).1
    help_round-K (Steal.success t) b w rest next g p =
        let (g', p') = polled t w g p in
        and_help-K _ (rest true) (next true) (requeue-K X Good K runs (poll_task X t w) g' p')
    help_round-K Steal.empty b w rest next g p = p
    help_round-K Steal.retry b w rest next g p = next b w p

    help-K : (n : ℕ) (b : Bool) (w : World X) → K w → K (help X n b w).1
    unfolding help
    help-K zero b w p = p
    help-K (suc n) b w p =
        let (got, left) =
          Takes-Got X Good _ _ _ (X.steal_lem w.global_queue) (stocked w p).waiting in
        help_round-K (X.steal w.global_queue).0 b _ (help X n) (help-K n) got
          (restocked w _ w.deques p left (stocked w p).assigned)

    helped_turn-K : (n : ℕ) (r : Outcome Bool × World X) → K r.1 → K (helped_turn X n r).1
    helped_turn-K n (returned b, w) p = p
    helped_turn-K n (panicked, w) p = p

    -- A turn of a blocked thread, once the channel has been looked at.
    pub turn_on-K : (r : TryRecv V) (n : ℕ) (w : World X) → K w → K (turn_on X r n w).1
    turn_on-K (TryRecv.ok v) n w p = p
    turn_on-K TryRecv.empty n w p = helped_turn-K n _ (help-K 4 false w p)
    turn_on-K TryRecv.disconnected n w p = p
