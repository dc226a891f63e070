-- ===== src/Executor/BlockOn/Handles.antt =====
-- `block_on` of src/runtime/executor.rs on join handles: the thread gets the results of what it has
-- spawned.
pub mod Standing
pub mod Polls
pub mod Turns
pub mod Waits
use mathlib.Core.Path.{subst}
use mathlib.Core.List.{append_assoc, append-nil}
use luminal.Prelude.{
  ℕ, zero, suc, ◌+◌, ◌-◌, ◌≤◌, ◌<◌, ◌≡◌, ◌≢◌, ◌∙◌, ◌⊎◌, inl, inr, refl, sym, ap, Bool, true, false,
  List, [], ◌∷◌, ◌++◌, length, length-append, update, arith, All, All-append,
}
use luminal.Crossbeam.{Crossbeam, Steal, TryRecv, Receives}
use luminal.Task.{JoinHandle, Future, value, joins, wrapped, Task, new_task}
use luminal.Task.Poll.{Outcome, returned, panicked}
use luminal.World.{World}
use luminal.Worker.{Loop, ends}
use luminal.Executor.{spawn, spawn_internal}
use luminal.Executor.BlockOn.{help, helped_turn, turn_on, turn, after_turn, wait_for, block_on}
use luminal.Executor.BlockOn.Liveness.Storage.{Silent, kept, placed}
use luminal.Executor.BlockOn.Liveness.{receive-none}
use luminal.Executor.BlockOn.Handles.Standing.{
  Entry, Ascends-le, Ascends-snoc, Ascends-raise, Lines, Avoids-beyond, All-update, Lines-snoc,
  Lines-after, Stands,
}
use luminal.Executor.BlockOn.Handles.Turns.{Works, Found, Ahead, Helped, help_once, receive-ok}
use luminal.Executor.BlockOn.Handles.Waits.{Owed, wait_for-Gives}

module _ {V : Type 0} (X : Crossbeam (Task V) V) where
  -- A new channel leaves those of the entries.
  spawn-Full :
      (m : ℕ) (a q : List (Entry X)) (after : List (Task V)) (w : World X)
      → Stands X m a q after w
      → All
          (λ (e : Entry X). X.queued (update w.channels w.next_channel X.unbounded e.0) ≡ e.1 ∷ [])
          a
        × All (λ (e : Entry X). Silent X (update w.channels w.next_channel X.unbounded e.0)) q
  spawn-Full m a q after w s = (
    All-update X (λ e' x. X.queued x ≡ e'.1 ∷ []) w.channels w.next_channel X.unbounded a
        (Avoids-beyond X 0 s.middle w.next_channel a
          (omega (arith, s.bound, Ascends-le X s.middle m q s.high)) s.low)
        s.full,
    All-update X (λ e' x. Silent X x) w.channels w.next_channel X.unbounded q
        (Avoids-beyond X s.middle m w.next_channel q s.bound s.high) s.quiet,
  )

  unbounded-Silent :
      (w : World X) → Silent X (update w.channels w.next_channel X.unbounded w.next_channel)
  unbounded-Silent w =
      placed X (Silent X) w.channels w.next_channel X.unbounded
        (X.queued-unbounded, X.live-unbounded)

  -- An executor with an empty queue owes nothing.
  pub nothing-Owed : (w : World X) → X.items w.global_queue ≡ [] → Owed X [] w
  nothing-Owed w e = (
    0,
    [],
    [],
    refl,
    record {
      middle = 0;
      low = omega arith;
      high = omega arith;
      bound = omega arith;
      lines = e;
      full = tt;
      quiet = tt;
    },
  )

  -- A new task is owed its result.
  pub spawn-Owed :
      (v : V) (l : List (Entry X)) (w : World X)
      → Owed X l w
      → Owed X (l ++ (w.next_channel, v) ∷ []) (spawn X (value v) w).1
  unfolding spawn spawn_internal
  spawn-Owed v l w (m, a, q, e, s) =
      let c = w.next_channel in
      let t : Task V = new_task (record { raw = w.next_task_id }) (wrapped c (value v)) in
      let (full, quiet) = spawn-Full m a q [] w s in
      (
        c + 1,
        a,
        q ++ (c, v) ∷ [],
        ap (λ x. x ++ (c, v) ∷ []) e ∙ append_assoc a q ((c, v) ∷ []),
        record {
          middle = s.middle;
          low = s.low;
          high = Ascends-snoc X s.middle m c v q s.bound s.high;
          bound = omega arith;
          lines =
              subst (Lines X (q ++ (c, v) ∷ []) []) (sym (X.items-push w.global_queue t))
                (Lines-snoc X q (X.items w.global_queue) c v t refl s.lines);
          full = full;
          quiet = All-append _ q ((c, v) ∷ []) quiet (unbounded-Silent w, tt);
        },
      )

  module _ (calm : (q : X.Injector) → (X.steal q).0 ≢ Steal.retry) where
    -- The thread that waits for the first handle gets its result, and the others are owed still, with
    -- 3 turns and one for each other handle.
    pub block_on-Owed :
        (k : ℕ) (j : JoinHandle) (v : V) (l : List (Entry X)) (w : World X)
        → Owed X ((j.receiver, v) ∷ l) w
        → length l + 2 < k
        → ((block_on X (λ d u. u) k (joins j value) w).0 ≡ ends v)
          × Owed X l (block_on X (λ d u. u) k (joins j value) w).1
    unfolding block_on spawn spawn_internal
    block_on-Owed k j v l w (m, a, q, e, s) fuel =
        let c = w.next_channel in
        let own : JoinHandle = record { id = record { raw = w.next_task_id }; receiver = c } in
        let t : Task V = new_task own.id (wrapped c (joins j value)) in
        let (full, quiet) = spawn-Full m a q [] w s in
        wait_for-Gives X calm own j v l k (suc (length q)) 0 _
          (omega (arith, ap length e, length-append a q))
          (inr (
            a,
            q,
            omega arith,
            record {
              own = t;
              joining = refl;
              stands = record {
                middle = s.middle;
                low = s.low;
                high = Ascends-raise X s.middle m c q s.bound s.high;
                bound = omega arith;
                lines =
                    subst (Lines X q (t ∷ [])) (sym (X.items-push w.global_queue t))
                      (Lines-after X q (X.items w.global_queue) t s.lines);
                full = full;
                quiet = quiet;
              };
              entries = sym e;
              silent = unbounded-Silent w;
              below = omega arith;
            },
          ))
