-- ===== src/Executor/BlockOn/Handles/Turns.antt =====
-- A thread in `block_on` (src/runtime/executor.rs) on the way to a join handle's result.
use mathlib.Core.Path.{subst}
use mathlib.Core.List.{append_assoc, append-nil}
use luminal.Prelude.{
  ℕ, zero, suc, ◌+◌, ◌-◌, ◌≤◌, ◌<◌, ◌≡◌, ◌≢◌, ◌∙◌, ◌⊎◌, inl, inr, refl, sym, ap, Bool, true, List,
  [], ◌∷◌, ◌++◌, length, update, arith,
}
use luminal.Crossbeam.{Crossbeam, Steal, TryRecv, Takes, Receives}
use luminal.Task.{JoinHandle, value, joins, wrapped, Task}
use luminal.Task.Poll.{Outcome, returned, panicked}
use luminal.World.{World}
use luminal.JoinHandle.{poll_handle}
use luminal.Executor.{deliver, poll_task}
use luminal.Executor.Polls.{freed}
use luminal.Executor.BlockOn.{requeue, and_help, help_round, help}
use luminal.Executor.BlockOn.Liveness.Storage.{Silent, kept, placed}
use luminal.Executor.BlockOn.Handles.Standing.{
  Entry, Ascends-le, Ascends-lower, Avoids-beyond, Avoids-below, All-update, Stands,
}
use luminal.Executor.BlockOn.Handles.Polls.{value-requeue, joins-requeue, first-Stands}

module _ {V : Type 0} (X : Crossbeam (Task V) V) where
  pub receive-ok :
      (r : TryRecv V) (src : List V) (b : Bool) (src' : List V) (v : V)
      → Receives r src b src'
      → src ≡ v ∷ []
      → (r ≡ TryRecv.ok v) × (src' ≡ [])
  receive-ok (TryRecv.ok u) src b src' v h e = (cc, cc)
  receive-ok TryRecv.empty src b src' v h e = cc
  receive-ok TryRecv.disconnected src b src' v h e = cc

  cons-ne_nil : {t : Task V} {l : List (Task V)} → ¬ (t ∷ l ≡ [])
  cons-ne_nil e = cc

  -- The thread waits on the channel `c'` for the handle `j`, whose result is `v`; `l` are the other
  -- handles. Either its own task is the last in the queue, or the result is in `c'`.
  module _ (c' : ℕ) (j : JoinHandle) (v : V) (l : List (Entry X)) where
    pub record Works (a q : List (Entry X)) (w : World X) : Type 0 where
      pub own : Task V
      pub joining : own.future ≡ wrapped c' (joins j value)
      pub stands : Stands X c' a q (own ∷ []) w
      pub entries : a ++ q ≡ (j.receiver, v) ∷ l
      pub silent : Silent X (w.channels c')
      pub below : c' < w.next_channel

    pub record Found (w : World X) : Type 0 where
      pub settled : Stands X c' l [] [] w
      pub has : X.queued (w.channels c') ≡ v ∷ []
      pub beneath : c' < w.next_channel

    -- At most `n` polls are left.
    abbrev pub Ahead : ℕ → World X → Type 0
    Ahead n w =
        Found w ⊎ ((a : List (Entry X)) × (q : List (Entry X)) × (length q < n) × Works a q w)

    Ahead-mono : (n m : ℕ) (w : World X) → n ≤ m → Ahead n w → Ahead m w
    Ahead-mono n m w le (inl f) = inl f
    Ahead-mono n m w le (inr (a, q, lt, k)) = inr (a, q, omega arith, k)

    -- The queue has given its first task `t`, and this task is run.
    run-Works :
        (a q : List (Entry X)) (t : Task V) (w : World X) (i : X.Injector)
        → Works a q w
        → X.items w.global_queue ≡ t ∷ X.items i
        → (u : World X) × (requeue X (poll_task X t (record w { global_queue = i }))
            ≡ (returned tt, u))
          × Ahead (length q) u
    unfolding deliver poll_handle
    run-Works a ((c, x) ∷ q) t w i k e =
        let (f, s) = first-Stands X c' c x a q (k.own ∷ []) t w i (freed X w.wakers) k.stands e in
        (
          record (deliver X c x (record w { global_queue = i })) { wakers = freed X w.wakers },
          value-requeue X c x t (record w { global_queue = i }) f,
          inr (
            a ++ (c, x) ∷ [],
            q,
            omega arith,
            record {
              own = k.own;
              joining = k.joining;
              stands = s;
              entries = append_assoc a ((c, x) ∷ []) q ∙ k.entries;
              silent =
                  kept X (Silent X) w.channels c c' _
                    (λ same. omega (arith, Ascends-le X (c + 1) c' q k.stands.high.1)) k.silent;
              below = k.below;
            },
          ),
        )
    run-Works a [] t w i k e =
        let r = j.receiver in
        let s : Stands X c' ((r, v) ∷ l) [] (k.own ∷ []) w =
          subst (λ a'. Stands X c' a' [] (k.own ∷ []) w) (sym (append-nil a) ∙ k.entries)
            k.stands in
        let same : t ≡ k.own = cc in
        let left : X.items i ≡ [] = cc in
        let (got, none_left) = receive-ok _ _ _ _ v (X.try_recv_lem (w.channels r)) s.full.0 in
        let joining : t.future ≡ wrapped c' (joins j value) =
          ap (λ (x : Task V). x.future) same ∙ k.joining in
        let cs = update w.channels r (X.try_recv (w.channels r)).1 in
        let chan = X.drop_sender (X.send (cs c') v) in
        let apart : ¬ (r ≡ c') =
          λ e'. omega (arith, s.high, Ascends-le X (r + 1) s.middle l s.low.1) in
        let silent : Silent X (cs c') = kept X (Silent X) w.channels r c' _ apart k.silent in
        (
          record (deliver X c' v (poll_handle X j (record w { global_queue = i })).1) {
            wakers = freed X w.wakers;
          },
          joins-requeue X j c' v t (record w { global_queue = i }) joining got,
          inl (record {
            settled = record {
              middle = s.middle;
              low = Ascends-lower X (r + 1) 0 s.middle l (omega arith) s.low.1;
              high = s.high;
              bound = s.bound;
              lines = left;
              full =
                  All-update X (λ e' x. X.queued x ≡ e'.1 ∷ []) cs c' chan l
                    (Avoids-beyond X (r + 1) s.middle c' l s.high s.low.1)
                    (All-update X (λ e' x. X.queued x ≡ e'.1 ∷ []) w.channels r _ l
                      (Avoids-below X (r + 1) s.middle r l (omega arith) s.low.1) s.full.1);
              quiet = tt;
            };
            has =
                placed X (λ x. X.queued x ≡ v ∷ []) cs c' chan
                  (X.queued-drop_sender _
                    ∙ X.queued-send (cs c') v
                    ∙ ap (λ m. m ++ v ∷ []) silent.0);
            beneath = k.below;
          }),
        )

    -- A call of `help` goes on to such a state.
    abbrev pub Helped : ℕ → Outcome Bool × World X → Type 0
    Helped n (returned _, w) = Ahead n w
    Helped n (panicked, w) = ⊥

    Works-first :
        (a q : List (Entry X)) (w : World X)
        → Works a q w
        → (t : Task V) × (rest : List (Task V)) × (X.items w.global_queue ≡ t ∷ rest)
    Works-first a [] w k = (k.own, [], k.stands.lines)
    Works-first a (e ∷ q) w k = let (t, rest, e', f, more) = k.stands.lines in (t, rest, e')

    help_round-Helped :
        (n : ℕ) (s : Steal (Task V)) (b : Bool) (i : X.Injector) (w : World X)
        → Takes s (X.items w.global_queue) (X.items i)
        → s ≢ Steal.retry
        → (rest : Bool → World X → Outcome Bool × World X)
        → ((u : World X) → Ahead (n - 1) u → Helped (n - 1) (rest true u))
        → Ahead n w
        → Helped (n - 1) (help_round X s b (record w { global_queue = i }) rest)
    help_round-Helped n (Steal.success t) b i w e calm rest next (inl f) =
        absurd (cons-ne_nil (sym e ∙ f.settled.lines))
    help_round-Helped n (Steal.success t) b i w e calm rest next (inr (a, q, lt, k)) =
        let (u, ran, h) = run-Works a q t w i k e in
        subst (λ r. Helped (n - 1) (and_help X r (rest true))) (sym ran)
          (next u (Ahead-mono (length q) (n - 1) u (omega arith) h))
    help_round-Helped n Steal.empty b i w e calm rest next (inl f) = inl (record {
      settled = record {
        middle = f.settled.middle;
        low = f.settled.low;
        high = f.settled.high;
        bound = f.settled.bound;
        lines = e.1;
        full = f.settled.full;
        quiet = f.settled.quiet;
      };
      has = f.has;
      beneath = f.beneath;
    })
    help_round-Helped n Steal.empty b i w e calm rest next (inr (a, q, lt, k)) =
        let (t, ts, e') = Works-first a q w k in absurd (cons-ne_nil (sym e' ∙ e.0))
    help_round-Helped n Steal.retry b i w e calm rest next h = absurd (calm refl)

    module _ (calm : (q : X.Injector) → (X.steal q).0 ≢ Steal.retry) where
      Helped-pred : (n : ℕ) (r : Outcome Bool × World X) → Helped (n - 1) r → Helped n r
      Helped-pred n (returned _, w) p = Ahead-mono (n - 1) n w (omega arith) p
      Helped-pred n (panicked, w) p = absurd p

      help-Helped : (k n : ℕ) (b : Bool) (w : World X) → Ahead n w → Helped n (help X k b w)
      unfolding help
      help-Helped zero n b w h = h
      help-Helped (suc k) n b w h = Helped-pred n _ (
          help_round-Helped n _ b _ w (X.steal_lem w.global_queue) (calm w.global_queue) (help X k)
            (help-Helped k (n - 1) true) h)

      pub help_once :
          (k n : ℕ) (b : Bool) (w : World X) → Ahead n w → Helped (n - 1) (help X (suc k) b w)
      unfolding help
      help_once k n b w h =
          help_round-Helped n _ b _ w (X.steal_lem w.global_queue) (calm w.global_queue) (help X k)
            (help-Helped k (n - 1) true) h
