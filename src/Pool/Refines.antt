-- ===== src/Pool/Refines.antt =====
-- The threads of an executor (src/runtime/executor.rs, src/runtime/worker.rs), in every interleaving,
-- do what a bag of tasks allows.
pub mod Searches
pub mod Drops
use mathlib.Core.Path.{subst}
use luminal.Prelude.{
  ℕ, zero, suc, ◌+◌, ◌%◌, ◌<◌, ◌≡◌, ◌≢◌, refl, ap, sym, ◌∙◌, Bool, true, false, List, [], Option,
  some, none, update, if_both, Bag, ◌⊕◌, only, nothing, nothing-⊕, bag_of, bag_of-∷, bag_of-[],
  length, arith,
}
use luminal.Crossbeam.{Crossbeam, Steal, Pops, TryRecv}
use luminal.Task.{Future, Task}
use luminal.Task.Poll.{Outcome, returned, panicked}
use luminal.Waker.{Heap}
use luminal.World.{World}
use luminal.JoinHandle.{poll_handle}
use luminal.Executor.{spawn}
use luminal.Executor.BlockOn.{and_help, help_round, help, helped_turn, turn_on, turn}
use luminal.Executor.Threads.{num_workers, start_workers, fresh, new, shut_down}
use luminal.Executor.{poll_task}
use luminal.Worker.{
  WorkerThread, Loop, ends, unwound, no_fuel, run_task, and_then, local_task, drain, give_up,
}
use luminal.Worker.StealOrder.{started, started-IsWired}
use luminal.Worker.Wiring.{IsWired}
use luminal.System.{
  Pc, top, popping, stealing, scanning, stopped, dead, Place, ended, popped, searched, joined_all,
  advance, System, Step, work, spawned, joined, blocked, dropped, Reach, begin, later,
}
use luminal.Pool.{Pool, vacant, put, collect, Runs, Invariant, Runs-Invariant}
use luminal.Pool as Pool
use luminal.Pool.Contents.{bag, in_deques-nothing, bag-deque, bag-steal, held, Takes-held}
use luminal.Pool.View.{view, host-Maps, help-seen}
use luminal.Pool.Refines.Drops.{drop_self-Shown, let_go_queue-Shown}
use luminal.Pool.Refines.Searches.{
  Shown, Holding, released, empty_handed, ran, steal_global-Shown, scan_round-Shown,
}

module _ {V : Type 0} (X : Crossbeam (Task V) V) (n : ℕ) {client : ℕ → Future V → Type 0}
    {helping : Bool} (I : Pool X → Type 0) (keeps : Invariant X client helping I) where
  abbrev Shown' : World X → Type 0
  Shown' w = I (view X n w)

  and_then-Shown :
      (r : Outcome (Unit {0}) × World X) → Shown' r.1 → Shown' (and_then X r (λ u. (no_fuel, u))).1
  and_then-Shown (returned _, w) p = p
  and_then-Shown (panicked, w) p = p

  local_task-Shown :
      (d : ℕ) (o : Option (Task V)) (b : Bool) (w : World X) (l : X.Worker)
      → d < n
      → Pops o (X.local (w.deques d)) (X.local l)
      → Shown' w
      → Shown' (local_task X o b (record w { deques = update w.deques d l }) (λ u. (no_fuel, u))).1
  local_task-Shown d none b w l lt (e, f) p = empty_handed X n I keeps _ _ (nothing-⊕ _) (
      released X n I keeps nothing (view X n w) _
        (bag-deque X n d nothing w l lt (rw (e, f) (sym (nothing-⊕ _)))) p)
  local_task-Shown d (some t) b w l lt e p = and_then-Shown _ (
      ran X n I keeps t _ (
        released X n I keeps (only t) (view X n w) _
          (bag-deque X n d (only t) w l lt (rw (e, bag_of-∷) refl)) p))

  pub drain-Shown : (d : ℕ) (b : Bool) (w : World X) → d < n → Shown' w → Shown' (drain X 1 d b w).1
  unfolding drain
  drain-Shown d b w lt p = local_task-Shown d _ b w _ lt (X.pop_lem (w.deques d)) p

  popped-Shown :
      (me : WorkerThread) (idle : ℕ) (r : Loop Bool × World X)
      → IsWired n me
      → Shown' r.1
      → Shown' (popped X me idle r).1
  popped-Shown me idle (ends true, w) wired p = p
  popped-Shown me idle (ends false, w) wired p = p
  popped-Shown me idle (unwound, w) wired p = drop_self-Shown X n I keeps me w wired p
  popped-Shown me idle (no_fuel, w) wired p = p

  searched-Shown :
      (me : WorkerThread) (idle : ℕ) (pc : Pc) (r : Outcome Bool × World X)
      → IsWired n me
      → Shown' r.1
      → Shown' (searched X me idle pc r).1
  searched-Shown me idle pc (returned true, w) wired p = p
  searched-Shown me idle pc (returned false, w) wired p = p
  searched-Shown me idle pc (panicked, w) wired p = drop_self-Shown X n I keeps me w wired p

  advance-Shown :
      (me : WorkerThread) (pc : Pc) (idle : ℕ) (w : World X)
      → IsWired n me
      → Shown' w
      → Shown' (advance X me pc idle w).1
  unfolding advance
  advance-Shown me top idle w wired p =
      if_both (λ (r : Place × World X). Shown' r.1) w.shutdown (ended X me stopped idle w)
        (record { pc = popping false; idle_count = idle }, w)
        (drop_self-Shown X n I keeps me w wired p) p
  advance-Shown me (popping b) idle w wired p =
      popped-Shown me idle _ wired (drain-Shown me.worker b w wired.home p)
  advance-Shown me stealing idle w wired p =
      searched-Shown me idle _ _ wired (steal_global-Shown X n I keeps me.worker w wired.home p)
  advance-Shown me (scanning zero i) idle w wired p = p
  advance-Shown me (scanning (suc m) i) idle w wired p =
      searched-Shown me idle _ _ wired (scan_round-Shown X n I keeps me i w wired p)
  advance-Shown me stopped idle w wired p = p
  advance-Shown me dead idle w wired p = p

  module _ (helps : helping ≡ true) where
    and_help-Shown :
        (r : Outcome (Unit {0}) × World X) (rest : World X → Outcome Bool × World X)
        → ((u : World X) → Shown' u → Shown' (rest u).1)
        → Shown' r.1
        → Shown' (and_help X r rest).1
    and_help-Shown (returned _, w) rest next p = next w p
    and_help-Shown (panicked, w) rest next p = p

    help_round-Shown :
        (s : Steal (Task V)) (b : Bool) (w : World X)
        → (rest : Bool → World X → Outcome Bool × World X)
        → ((c : Bool) (u : World X) → Shown' u → Shown' (rest c u).1)
        → Holding X n I keeps (held X s) w
        → Shown' (help_round X s b w rest).1
    help_round-Shown (Steal.success t) b w rest next p =
        and_help-Shown _ (rest true) (next true)
          (subst I (sym (help-seen X n t w)) (keeps.helped_keeps t (view X n w) helps p))
    help_round-Shown Steal.empty b w rest next p = empty_handed X n I keeps w _ (nothing-⊕ _) p
    help_round-Shown Steal.retry b w rest next p =
        next b w (empty_handed X n I keeps w _ (nothing-⊕ _) p)

    help-Shown : (k : ℕ) (b : Bool) (w : World X) → Shown' w → Shown' (help X k b w).1
    unfolding help
    help-Shown zero b w p = p
    help-Shown (suc k) b w p =
        let r = X.steal w.global_queue in
        help_round-Shown r.0 b (record w { global_queue = r.1 }) (help X k) (help-Shown k)
          (released X n I keeps (held X r.0) (view X n w) _
            (bag-steal X n _ w r.1 (Takes-held X r.0 _ _ (X.steal_lem w.global_queue))) p)

    helped_turn-Shown :
        (k : ℕ) (r : Outcome Bool × World X) → Shown' r.1 → Shown' (helped_turn X k r).1
    helped_turn-Shown k (returned b, w) p = p
    helped_turn-Shown k (panicked, w) p = p

    turn_on-Shown : (r : TryRecv V) (k : ℕ) (w : World X) → Shown' w → Shown' (turn_on X r k w).1
    turn_on-Shown (TryRecv.ok v) k w p = p
    turn_on-Shown TryRecv.empty k w p = helped_turn-Shown k _ (help-Shown 4 false w p)
    turn_on-Shown TryRecv.disconnected k w p = p

  -- A step of a thread is steps of the bag.
  pub Step-Shown : {s t : System X} → Step X n client helping s t → Shown' s.world → Shown' t.world
  unfolding turn shut_down poll_handle collect bag
  Step-Shown {s = s} (work i lt) p =
      advance-Shown (started i) (s.places i).pc (s.places i).idle_count s.world
        (started-IsWired n i lt) p
  Step-Shown {s = s} (spawned f m) p =
      subst I (ap (λ r. r.1) ((host-Maps X n).spawn_maps f s.world))
        (keeps.submitted_keeps f (view X n s.world) m p)
  Step-Shown {s = s} (joined j) p = keeps.collected_keeps j (view X n s.world) p
  Step-Shown {s = s} (blocked j k h) p =
      turn_on-Shown h _ k _ (keeps.collected_keeps j (view X n s.world) p)
  Step-Shown {s = s} (joined_all h owned over) p = let_go_queue-Shown X n I keeps s.world p
  Step-Shown {s = s} dropped p = keeps.closed_keeps (view X n s.world) p

module _ {V : Type 0} (X : Crossbeam (Task V) V) where
  -- An executor with no task, and with nothing done.
  record Unused (n : ℕ) (w : World X) : Type 0 where
    unqueued : X.items w.global_queue ≡ []
    unassigned : (d : ℕ) → X.local (w.deques d) ≡ []
    others : record (view X n w) { tasks = nothing } ≡ vacant X

  start_workers-Unused :
      (n m i : ℕ) (stealers : List ℕ) (w : World X)
      → Unused n w
      → Unused n (start_workers X m i stealers w).1
  unfolding start_workers
  start_workers-Unused n zero i stealers w b = b
  start_workers-Unused n (suc m) i stealers w b = start_workers-Unused n m (i + 1) _ _ (record {
    unqueued = b.unqueued;
    unassigned = λ d. ground (arith, b.unassigned d, X.local-new_fifo);
    others = b.others;
  })

  Unused-view : (n : ℕ) (w : World X) → Unused n w → view X n w ≡ vacant X
  unfolding bag
  Unused-view n w b =
      ap (λ (c : Bag (Task V)). record (view X n w) { tasks = c })
        (rw (b.unqueued, in_deques-nothing X n w.deques b.unassigned, bag_of-[])
          (nothing-⊕ nothing))
      ∙ b.others

  new-view :
      (available : Option ℕ) (next_id : ℕ) (h : Heap)
      → view X (num_workers available) (new X available next_id h).1 ≡ vacant X
  unfolding new
  new-view available next_id h = Unused-view (num_workers available) _ (
      start_workers-Unused (num_workers available) (num_workers available) 0 [] (fresh X next_id h)
        (record { unqueued = X.items-new; unassigned = λ d. X.local-new_fifo; others = refl }))

  -- What the threads of an executor do in any interleaving, with any number of workers, any lost races
  -- and any panics, is what a bag of tasks does whose steps are: to poll any one task of the bag and to
  -- put it back if it waits, with its end counted if a worker polled it and not if a thread in
  -- `block_on` did; to lose a task, whose sender is dropped (one in the queue of a worker that has ended,
  -- say); to spawn; to poll a join handle; to be closed. Every state that the threads can
  -- reach, its queues seen as one bag, is one that the bag can reach, where the program spawns and
  -- helps under the same conditions.
  pub Reach-Runs :
      {available : Option ℕ} {client : ℕ → Future V → Type 0} {helping : Bool} {s : System X}
      → Reach X available client helping s
      → Runs X client helping (view X (num_workers available) s.world)
  Reach-Runs {available} {client} {helping} (begin next_id h) =
      subst (Runs X client helping) (sym (new-view available next_id h)) Pool.begin
  Reach-Runs {available} {client} {helping} (later r st) =
      Step-Shown X (num_workers available) (Runs X client helping) (Runs-Invariant X client helping)
        st (Reach-Runs r)
