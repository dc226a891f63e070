-- ===== src/System/Safety.antt =====
-- What a join handle delivers, in every interleaving of the threads.
use mathlib.Core.Path.{subst}
use luminal.Prelude.{ℕ, zero, suc, ◌+◌, ◌≡◌, sym, Bool, true, false, Option, List, [], All, if_both}
use luminal.Crossbeam.{Crossbeam, TryRecv, Receives}
use luminal.Task.{JoinHandle, Future, Task}
use luminal.Task.Poll.{ready, Outcome, returned, panicked}
use luminal.Task.Poll.Promise.{Meets}
use luminal.Waker.{Heap}
use luminal.World.{World}
use luminal.JoinHandle.{poll_handle}
use luminal.Executor.BlockOn.{help, helped_turn, turn, turn_on, result}
use luminal.Executor.Promise.{Good, Kept, Kept-Runs, received-Kept, host-Trusted, spawn-Kept}
use luminal.Executor.Threads.{num_workers, start_workers, fresh, new, shut_down}
use luminal.Worker.{WorkerThread, Loop, ends, unwound, no_fuel, give_up, drop_self}
use luminal.Worker.Invariant.{update-Filled}
use luminal.Worker.Invariant.Drops.{drop_self-K, let_go_queue-K}
use luminal.Worker.Invariant.Steals.{steal_global-K, scan_round-K}
use luminal.Worker.Invariant.Passes.{drain-K}
use luminal.Worker.Invariant.Helps.{turn_on-K}
use luminal.Worker.StealOrder.{started}
use luminal.System.{
  Pc, top, popping, stealing, scanning, stopped, dead, Place, ended, popped, searched, joined_all,
  advance, System, Step, work, spawned, joined, blocked, dropped, Reach, begin, later,
}

module _ {V : Type 0} (X : Crossbeam (Task V) V) (spec : ℕ → V → Type 0) where
  abbrev Kept' : World X → Type 0
  Kept' = Kept X spec

  held-Kept :
      (w : World X) (h : ℕ → ℕ) (q : ℕ)
      → Kept' w
      → Kept' (record w { holders = h; queue_holders = q })
  held-Kept w h q p = record {
    tasks = record { waiting = p.tasks.waiting; assigned = p.tasks.assigned };
    results = p.results;
  }

  drop_self-Kept : (me : WorkerThread) (w : World X) → Kept' w → Kept' (drop_self X me w)
  drop_self-Kept =
      drop_self-K X (Good X spec) Kept' (Kept-Runs X spec) (host-Trusted X spec).abandon_kept
        held-Kept

  popped-Kept :
      (me : WorkerThread) (idle : ℕ) (r : Loop Bool × World X)
      → Kept' r.1
      → Kept' (popped X me idle r).1
  popped-Kept me idle (ends true, w) p = p
  popped-Kept me idle (ends false, w) p = p
  popped-Kept me idle (unwound, w) p = drop_self-Kept me w p
  popped-Kept me idle (no_fuel, w) p = p

  searched-Kept :
      (me : WorkerThread) (idle : ℕ) (pc : Pc) (r : Outcome Bool × World X)
      → Kept' r.1
      → Kept' (searched X me idle pc r).1
  searched-Kept me idle pc (returned true, w) p = p
  searched-Kept me idle pc (returned false, w) p = p
  searched-Kept me idle pc (panicked, w) p = drop_self-Kept me w p

  advance-Kept :
      (me : WorkerThread) (pc : Pc) (idle : ℕ) (w : World X)
      → Kept' w
      → Kept' (advance X me pc idle w).1
  unfolding advance
  advance-Kept me top idle w p =
      if_both (λ (r : Place × World X). Kept' r.1) w.shutdown (ended X me stopped idle w)
        (record { pc = popping false; idle_count = idle }, w) (drop_self-Kept me w p) p
  advance-Kept me (popping b) idle w p =
      popped-Kept me idle _ (drain-K X (Good X spec) Kept' (Kept-Runs X spec) 1 me.worker b w p)
  advance-Kept me stealing idle w p =
      searched-Kept me idle _ _
        (steal_global-K X (Good X spec) Kept' (Kept-Runs X spec) me.worker w p)
  advance-Kept me (scanning zero i) idle w p = p
  advance-Kept me (scanning (suc n) i) idle w p =
      searched-Kept me idle _ _
        (scan_round-K X (Good X spec) Kept' (Kept-Runs X spec) me i (give_up X) (λ u q. q) w p)
  advance-Kept me stopped idle w p = p
  advance-Kept me dead idle w p = p

  -- What the program spawns on the channel `c` meets the promise of this channel.
  abbrev pub Promising : ℕ → Future V → Type 0
  Promising c f = Meets spec (spec c) f

  Step-Kept :
      {n : ℕ} {helping : Bool} {s t : System X}
      → Step X n Promising helping s t
      → Kept' s.world
      → Kept' t.world
  unfolding turn shut_down poll_handle
  Step-Kept {s = s} (work i lt) p =
      advance-Kept (started i) (s.places i).pc (s.places i).idle_count s.world p
  Step-Kept {s = s} (spawned f m) p = spawn-Kept X spec f s.world p m
  Step-Kept {s = s} (joined j) p = received-Kept X spec j.receiver s.world p
  Step-Kept {s = s} (blocked j n h) p =
      turn_on-K X (Good X spec) Kept' (Kept-Runs X spec) _ n _
        (received-Kept X spec j.receiver s.world p)
  Step-Kept {s = s} (joined_all h owned over) p =
      let_go_queue-K X (Good X spec) Kept' (Kept-Runs X spec) (host-Trusted X spec).abandon_kept
        held-Kept s.world p
  Step-Kept {s = s} dropped p = record {
    tasks = record { waiting = p.tasks.waiting; assigned = p.tasks.assigned };
    results = p.results;
  }

  start_workers-Kept :
      (n i : ℕ) (stealers : List ℕ) (w : World X)
      → Kept' w
      → Kept' (start_workers X n i stealers w).1
  unfolding start_workers
  start_workers-Kept zero i stealers w p = p
  start_workers-Kept (suc n) i stealers w p = start_workers-Kept n (i + 1) _ _ (record {
    tasks = record {
      waiting = p.tasks.waiting;
      assigned =
          update-Filled X (Good X spec) w.deques i X.new_fifo p.tasks.assigned
            (subst (All (Good X spec)) (sym X.local-new_fifo) tt);
    };
    results = p.results;
  })

  new-Kept : (available : Option ℕ) (next_id : ℕ) (h : Heap) → Kept' (new X available next_id h).1
  unfolding new
  new-Kept available next_id h =
      start_workers-Kept (num_workers available) 0 [] (fresh X next_id h) (record {
        tasks = record {
          waiting = subst (All (Good X spec)) (sym X.items-new) tt;
          assigned = λ d. subst (All (Good X spec)) (sym X.local-new_fifo) tt;
        };
        results = λ c. subst (All (spec c)) (sym X.queued-unbounded) tt;
      })

  Reach-Kept :
      {available : Option ℕ} {helping : Bool} {s : System X}
      → Reach X available Promising helping s
      → Kept' s.world
  Reach-Kept {available} (begin next_id h) = new-Kept available next_id h
  Reach-Kept (later r st) = Step-Kept st (Reach-Kept r)

  helped_turn-ne :
      (n : ℕ) (r : Outcome Bool × World X) (v : V) → ¬ ((helped_turn X n r).0 ≡ returned (result v))
  helped_turn-ne n (returned b, w) v e = cc
  helped_turn-ne n (panicked, w) v e = cc

  Receives-result :
      (c : ℕ) (r : TryRecv V) (src : List V) (b : Bool) (src' : List V) (n : ℕ) (w : World X)
      (v : V)
      → Receives r src b src'
      → All (spec c) src
      → (turn_on X r n w).0 ≡ returned (result v)
      → spec c v
  Receives-result c (TryRecv.ok u) src b src' n w v e h q =
      subst (spec c) (cc) (subst (All (spec c)) e h).0
  Receives-result c TryRecv.empty src b src' n w v e h q =
      absurd (helped_turn-ne n (help X 4 false w) v q)
  Receives-result c TryRecv.disconnected src b src' n w v e h q = cc

  -- In every state that the threads can reach by any interleaving, with any number of workers, any
  -- lost races and any panics: a result that a turn of `block_on` returns with, or that a poll of a
  -- join handle gives, is one that `spec` allows on the channel of this handle. Each future that the
  -- program spawns gives only what `spec` allows on its own channel, as long as the handles that it
  -- awaits give what `spec` allows on theirs; a future that a task spawns does so on any channel.
  pub Reach-delivers :
      {available : Option ℕ} {helping : Bool} {s : System X}
      → Reach X available Promising helping s
      → (j : JoinHandle) (n : ℕ) (v : V)
      → ((turn X j n s.world).0 ≡ returned (result v) → spec j.receiver v)
        × ((poll_handle X j s.world).0 ≡ ready v → spec j.receiver v)
  unfolding turn
  Reach-delivers {s = s} r j n v = (
    Receives-result j.receiver _ _ _ _ n _ v (X.try_recv_lem (s.world.channels j.receiver))
        ((Reach-Kept r).results j.receiver),
    (host-Trusted X spec).join_allowed j s.world v (Reach-Kept r),
  )
