-- ===== src/System/Books.antt =====
-- The statistics of an executor (`stats` of src/runtime/executor.rs), in every interleaving of the
-- threads.
use mathlib.Core.Path.{subst}
use luminal.System.Shutdown.{Over-advance}
use luminal.Prelude.{
  sym, if◌then◌else◌, update_self, update_other, ℕ_discrete, ◌<◌, ℕ, zero, suc, ◌+◌, ◌%◌, ◌^◌, ◌≡◌,
  refl, ap, Bool, true, false, Option, List, [], length, total-zero, arith,
}
use luminal.Crossbeam.{Crossbeam}
use luminal.Task.{Future, Task}
use luminal.Task.Poll.{Outcome, returned, panicked}
use luminal.Waker.{Heap}
use luminal.World.{World}
use luminal.Executor.{stats}
use luminal.Executor.Balance.{backlog, Balanced, host-Balanced}
use luminal.Executor.Threads.{num_workers, start_workers, fresh, new, shut_down}
use luminal.Worker.{WorkerThread, Loop, ends, unwound, no_fuel, give_up}
use luminal.Worker.Balance.{LoopBooks, drain-Books}
use luminal.Worker.Balance.Attempts.{Books, steal_global-Books}
use luminal.Worker.Balance.Steals.{scan_round-Books}
use luminal.Worker.Wiring.{IsWired}
use luminal.Worker.StealOrder.{started, started-IsWired}
use luminal.System.{
  Pc, top, popping, stealing, scanning, stopped, dead, Over, Place, ended, popped, searched,
  advance, System, Step, joined_all, work, spawned, joined, blocked, dropped, Reach, begin, later,
}

module _ {V : Type 0} (X : Crossbeam (Task V) V) where
  -- The books of the system after a step of a worker that goes on.
  abbrev After : ℕ → Place × World X → Type 0
  After n (p, w) = ¬ (Over p.pc) → Balanced X n 1 w

  popped-After :
      (n : ℕ) (me : WorkerThread) (idle : ℕ) (r : Loop Bool × World X)
      → LoopBooks X n 1 r
      → After n (popped X me idle r)
  popped-After n me idle (ends true, w) p on = p
  popped-After n me idle (ends false, w) p on = p
  popped-After n me idle (unwound, w) p on = absurd (on tt)
  popped-After n me idle (no_fuel, w) p on = p

  searched-After :
      (n : ℕ) (me : WorkerThread) (idle : ℕ) (pc : Pc) (r : Outcome Bool × World X)
      → Books X n 1 r
      → After n (searched X me idle pc r)
  searched-After n me idle pc (returned true, w) p on = p
  searched-After n me idle pc (returned false, w) p on = p
  searched-After n me idle pc (panicked, w) p on = absurd (on tt)

  flag-After :
      (n : ℕ) (me : WorkerThread) (idle : ℕ) (b : Bool) (w : World X)
      → Balanced X n 1 w
      → After n (
          if b
          then ended X me stopped idle w
          else (record { pc = popping false; idle_count = idle }, w))
  flag-After n me idle true w p on = absurd (on tt)
  flag-After n me idle false w p on = p

  advance-After :
      (n : ℕ) (me : WorkerThread) (pc : Pc) (idle : ℕ) (w : World X)
      → IsWired n me
      → Balanced X n 1 w
      → After n (advance X me pc idle w)
  unfolding advance
  advance-After n me top idle w wired p = flag-After n me idle w.shutdown w p
  advance-After n me (popping b) idle w wired p =
      popped-After n me idle _ (drain-Books X n 1 1 me.worker b w wired.home p)
  advance-After n me stealing idle w wired p =
      searched-After n me idle _ _ (steal_global-Books X n 1 me.worker w wired.home p)
  advance-After n me (scanning zero i) idle w wired p = λ on. p
  advance-After n me (scanning (suc m) i) idle w wired p =
      searched-After n me idle (scanning m (i + 1)) _
        (scan_round-Books X n 1 me wired i (give_up X) (λ u q. q) w p)
  advance-After n me stopped idle w wired p = λ on. p
  advance-After n me dead idle w wired p = λ on. p

  -- No worker has ended, by the flag or by a panic.
  abbrev pub Running : ℕ → System X → Type 0
  Running n s = (i : ℕ) → i < n → ¬ (Over (s.places i).pc)

  -- A worker that has ended stays where it is.
  Running-before :
      {n : ℕ} {client : ℕ → Future V → Type 0} {helping : Bool} {s t : System X}
      → Step X n client helping s t
      → Running n t
      → Running n s
  Running-before {s = s} (work i lt) on j lj over =
      let old = s.places i in
      let r = advance X (started i) old.pc old.idle_count s.world in
      elim (ℕ_discrete i j) [
        | yes same ↦ on i lt (
            subst (λ (p : Place). Over p.pc) (sym (update_self s.places i r.0))
              (Over-advance X (started i) old.pc old.idle_count s.world
                (subst (λ k. Over (s.places k).pc) (sym same) over)))
        | no apart ↦
            on j lj
              (subst (λ (p : Place). Over p.pc) (sym (update_other s.places i j r.0 apart)) over)
      ]
  Running-before (spawned f m) on j lj over = on j lj over
  Running-before (joined h) on j lj over = on j lj over
  Running-before (blocked h m e) on j lj over = on j lj over
  Running-before dropped on j lj over = on j lj over
  Running-before (joined_all h owned all_over) on j lj over = on j lj over

  Step-Balanced :
      {n : ℕ} {client : ℕ → Future V → Type 0} {s t : System X}
      → Step X n client false s t
      → 0 < n
      → Running n t
      → Balanced X n 1 s.world
      → Balanced X n 1 t.world
  unfolding shut_down backlog
  Step-Balanced {n = n} {s = s} (work i lt) pos on p =
      let old = s.places i in
      let r = advance X (started i) old.pc old.idle_count s.world in
      advance-After n (started i) old.pc old.idle_count s.world (started-IsWired n i lt) p
        (λ over. on i lt (subst (λ (q : Place). Over q.pc) (sym (update_self s.places i r.0)) over))
  Step-Balanced {n = n} {s = s} (spawned f m) pos on p =
      (host-Balanced X n 1).spawn_keeps f s.world p
  Step-Balanced {n = n} {s = s} (joined j) pos on p = (host-Balanced X n 1).join_keeps j s.world p
  Step-Balanced (blocked j m h) pos on p = cc
  Step-Balanced dropped pos on p = p
  Step-Balanced (joined_all h owned over) pos on p = absurd (on 0 pos (over 0 pos))

  -- An executor with no tasks.
  record Blank (w : World X) : Type 0 where
    unqueued : X.items w.global_queue ≡ []
    unassigned : (d : ℕ) → X.local (w.deques d) ≡ []
    first_id : w.next_task_id ≡ 1
    unprocessed : w.tasks_processed ≡ 0

  start_workers-Blank :
      (n i : ℕ) (stealers : List ℕ) (w : World X)
      → Blank w
      → Blank (start_workers X n i stealers w).1
  unfolding start_workers
  start_workers-Blank zero i stealers w b = b
  start_workers-Blank (suc n) i stealers w b = start_workers-Blank n (i + 1) _ _ (record {
    unqueued = b.unqueued;
    unassigned = λ d. ground (arith, b.unassigned d, X.local-new_fifo);
    first_id = b.first_id;
    unprocessed = b.unprocessed;
  })

  Blank-Balanced : (n : ℕ) (w : World X) → Blank w → Balanced X n 1 w
  unfolding backlog
  Blank-Balanced n w b = omega (
    arith,
    ap length b.unqueued,
    total-zero (λ l. length (X.local l)) n w.deques (λ d. ap length (b.unassigned d)),
    b.first_id,
    b.unprocessed,
  )

  new-Balanced :
      (available : Option ℕ) (next_id : ℕ) (h : Heap)
      → Balanced X (num_workers available) 1 (new X available next_id h).1
  unfolding new
  new-Balanced available next_id h = Blank-Balanced (num_workers available) _ (
      start_workers-Blank (num_workers available) 0 [] (fresh X next_id h) (record {
        unqueued = X.items-new;
        unassigned = λ d. X.local-new_fifo;
        first_id = refl;
        unprocessed = refl;
      }))

  Reach-Balanced :
      {available : Option ℕ} {client : ℕ → Future V → Type 0} {s : System X}
      → Reach X available client false s
      → 0 < num_workers available
      → Running (num_workers available) s
      → Balanced X (num_workers available) 1 s.world
  Reach-Balanced {available} (begin next_id h) pos on = new-Balanced available next_id h
  Reach-Balanced (later r st) pos on =
      Step-Balanced st pos on (Reach-Balanced r pos (Running-before st on))

  -- In every state that the threads can reach by any interleaving, while the program does not call
  -- `block_on` and none of the workers, of which there is one at least, has ended: the next task id is
  -- 1 more than the tasks that wait in a queue and the count of processed tasks that `stats` gives,
  -- modulo 2^64.
  pub Reach-stats :
      {available : Option ℕ} {client : ℕ → Future V → Type 0} {s : System X}
      → Reach X available client false s
      → 0 < num_workers available
      → Running (num_workers available) s
      → s.world.next_task_id
        ≡ (backlog X (num_workers available) s.world + (stats X s.world).1 + 1) % 2 ^ 64
  unfolding stats
  Reach-stats {s = s} r pos on = omega (arith, Reach-Balanced r pos on)
