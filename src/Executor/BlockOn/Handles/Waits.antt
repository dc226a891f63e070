-- ===== src/Executor/BlockOn/Handles/Waits.antt =====
-- The loop of `block_on` (src/runtime/executor.rs) on the way to a join handle's result.
use mathlib.Core.Path.{subst}
use mathlib.Core.List.{append-nil}
use luminal.Prelude.{
  ℕ, zero, suc, ◌-◌, ◌≤◌, ◌<◌, ◌≡◌, ◌≢◌, ◌∙◌, inl, inr, refl, sym, Bool, false, List, [], ◌∷◌, ◌++◌,
  update, arith,
}
use luminal.Crossbeam.{Crossbeam, Steal, TryRecv}
use luminal.Task.{JoinHandle, Task}
use luminal.Task.Poll.{Outcome, returned, panicked}
use luminal.World.{World}
use luminal.Worker.{Loop, ends}
use luminal.Executor.BlockOn.{help, helped_turn, turn_on, turn, after_turn, wait_for}
use luminal.Executor.BlockOn.Liveness.Storage.{Silent, placed}
use luminal.Executor.BlockOn.Liveness.{receive-none}
use luminal.Executor.BlockOn.Handles.Standing.{
  Entry, Ascends-le, Lines, Avoids-beyond, All-update, Stands,
}
use luminal.Executor.BlockOn.Handles.Turns.{Works, Found, Ahead, Helped, help_once, receive-ok}

module _ {V : Type 0} (X : Crossbeam (Task V) V) where
  -- What is still to be taken out of the handles: for each, its channel and its result.
  abbrev pub Owed : List (Entry X) → World X → Type 0
  Owed l w =
      (m : ℕ) × (a : List (Entry X)) × (q : List (Entry X)) × (l ≡ a ++ q) × Stands X m a q [] w

  unlined : (a q : List (Entry X)) (ts : List (Task V)) → [] ≡ a ++ q → Lines X q [] ts → ts ≡ []
  unlined [] [] ts e h = h
  unlined [] (x ∷ q) ts e h = cc
  unlined (x ∷ a) q ts e h = cc

  pub Owed-unqueued : (w : World X) → Owed [] w → X.items w.global_queue ≡ []
  Owed-unqueued w (m, a, q, e, s) = unlined a q _ e s.lines

  module _ (calm : (q : X.Injector) → (X.steal q).0 ≢ Steal.retry) (own : JoinHandle)
      (j : JoinHandle) (v : V) (l : List (Entry X)) where
    -- The loop ends with the result, and the other handles are as before.
    abbrev pub Gives : Loop V × World X → Type 0
    Gives r = (r.0 ≡ ends v) × Owed l r.1

    Found-Gives :
        (r : TryRecv V) (ch : X.Channel) (i : ℕ) (w : World X)
        → (rest : ℕ → World X → Loop V × World X) → r ≡ TryRecv.ok v
        → Found X own.receiver j v l w
        → Gives (
            after_turn X
              (turn_on X r i (record w { channels = update w.channels own.receiver ch }))
              rest)
    Found-Gives r ch i w rest e f =
        let s = f.settled in
        let u : World X = record w { channels = update w.channels own.receiver ch } in
        subst (λ r'. Gives (after_turn X (turn_on X r' i u) rest)) (sym e)
          (
            refl,
            (
              own.receiver,
              l,
              [],
              sym (append-nil l),
              record {
                middle = s.middle;
                low = s.low;
                high = s.high;
                bound = s.bound;
                lines = s.lines;
                full =
                    All-update X (λ e' x. X.queued x ≡ e'.1 ∷ []) w.channels own.receiver ch l
                      (Avoids-beyond X 0 s.middle own.receiver l s.high s.low) s.full;
                quiet = tt;
              },
            ),
          )

    helped_turn-Gives :
        (n i : ℕ) (r : Outcome Bool × World X) (rest : ℕ → World X → Loop V × World X)
        → ((i' : ℕ) (u : World X) → Ahead X own.receiver j v l n u → Gives (rest i' u))
        → Helped X own.receiver j v l n r
        → Gives (after_turn X (helped_turn X i r) rest)
    helped_turn-Gives n i (returned b, w) rest next p = next _ w p
    helped_turn-Gives n i (panicked, w) rest next p = absurd p

    -- A look at the thread's own channel.
    look-Works :
        (a q : List (Entry X)) (w : World X) (ch : X.Channel)
        → Silent X ch
        → Works X own.receiver j v l a q w
        → Works X own.receiver j v l a q (record w { channels = update w.channels own.receiver ch })
    look-Works a q w ch quiet k =
        let s = k.stands in
        record {
          own = k.own;
          joining = k.joining;
          stands = record {
            middle = s.middle;
            low = s.low;
            high = s.high;
            bound = s.bound;
            lines = s.lines;
            full =
                All-update X (λ e' x. X.queued x ≡ e'.1 ∷ []) w.channels own.receiver ch a
                  (Avoids-beyond X 0 s.middle own.receiver a
                    (Ascends-le X s.middle own.receiver q s.high) s.low)
                  s.full;
            quiet =
                All-update X (λ e' x. Silent X x) w.channels own.receiver ch q
                  (Avoids-beyond X s.middle own.receiver own.receiver q (omega arith) s.high)
                  s.quiet;
          };
          entries = k.entries;
          silent = placed X (Silent X) w.channels own.receiver ch quiet;
          below = k.below;
        }

    turn-Gives :
        (n i : ℕ) (w : World X) (rest : ℕ → World X → Loop V × World X)
        → (1 ≤ n
            → (i' : ℕ) (u : World X) → Ahead X own.receiver j v l (n - 1) u
            → Gives (rest i' u))
        → Ahead X own.receiver j v l n w
        → Gives (after_turn X (turn X own i w) rest)
    unfolding turn
    turn-Gives n i w rest next (inl f) =
        let (got, left) = receive-ok X _ _ _ _ v (X.try_recv_lem (w.channels own.receiver)) f.has in
        Found-Gives _ (X.try_recv (w.channels own.receiver)).1 i w rest got f
    turn-Gives n i w rest next (inr (a, q, lt, k)) =
        let got = X.try_recv (w.channels own.receiver) in
        let u : World X = record w { channels = update w.channels own.receiver got.1 } in
        let (e, s) =
          receive-none X _ _ _ _ (X.try_recv_lem (w.channels own.receiver)) k.silent.0 k.silent.1 in
        let quiet : Silent X got.1 = (s, X.live-try_recv (w.channels own.receiver) ∙ k.silent.1) in
        subst (λ r. Gives (after_turn X (turn_on X r i u) rest)) (sym e)
          (helped_turn-Gives (n - 1) i (help X 4 false u) rest (next (omega arith)) (
            help_once X own.receiver j v l calm 3 n false u
              (inr (a, q, lt, look-Works a q w got.1 quiet k))))

    pub wait_for-Gives :
        (k n i : ℕ) (w : World X)
        → n < k
        → Ahead X own.receiver j v l n w
        → Gives (wait_for X (λ d u. u) k own i w)
    unfolding wait_for
    wait_for-Gives zero n i w h p = absurd (omega arith)
    wait_for-Gives (suc k) n i w h p =
        turn-Gives n i w (wait_for X (λ d u. u) k own)
          (λ pos i' u. wait_for-Gives k (n - 1) i' u (omega arith)) p
