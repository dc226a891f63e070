-- ===== src/System.antt =====
-- The threads of one executor, interleaved. A step of a worker (src/runtime/worker.rs) is a check of
-- the flag, a round of the loop over its local queue, the search of the global queue, or the search
-- of one other deque; the run of a task that a step finds belongs to it. The other threads are the
-- program's: they spawn, poll join handles, take turns in `block_on` (src/runtime/executor.rs), and
-- drop the executor.
pub mod Safety
pub mod Books
pub mod Shutdown
use luminal.Prelude.{
  ℕ, zero, suc, ◌+◌, ◌%◌, ◌^◌, ◌<◌, ◌≡◌, Bool, true, false, Option, length, update, if◌then◌else◌,
}
use luminal.Crossbeam.{Crossbeam}
use luminal.Task.{JoinHandle, Future, Task}
use luminal.Task.Poll.{Outcome, returned, panicked}
use luminal.Waker.{Heap}
use luminal.World.{World}
use luminal.JoinHandle.{poll_handle}
use luminal.Executor.{spawn}
use luminal.Executor.BlockOn.{turn}
use luminal.Executor.Drops.{let_go_queue}
use luminal.Executor.Threads.{num_workers, new, shut_down}
use luminal.Worker.{
  WorkerThread, Loop, ends, unwound, no_fuel, give_up, steal_global, scan_round, drain, drop_self,
}
use luminal.Worker.StealOrder.{started}

-- Where a worker stands in `run`: before the flag, in the loop over its local queue (with the value
-- of `found_work`), before the global queue, in the loop over the stealers (with the rounds left and
-- the next one), after the loop, or after a panic.
pub data Pc : Type 0 where
  top : Pc
  popping : Bool → Pc
  stealing : Pc
  scanning : ℕ → ℕ → Pc
  stopped : Pc
  dead : Pc

-- The thread has come to its end.
abbrev pub Over : Pc → Type 0
Over top = ⊥
Over (popping b) = ⊥
Over stealing = ⊥
Over (scanning m i) = ⊥
Over stopped = Unit
Over dead = Unit

pub record Place : Type 0 where
  pub pc : Pc
  pub idle_count : ℕ

module _ {V : Type 0} (X : Crossbeam (Task V) V) where
  -- A worker that has ended drops what it has.
  abbrev pub ended : WorkerThread → Pc → ℕ → World X → Place × World X
  ended me pc idle w = (record { pc = pc; idle_count = idle }, drop_self X me w)

  -- A round of the loop over the local queue that has used its one unit of fuel goes on.
  abbrev pub popped : WorkerThread → ℕ → Loop Bool × World X → Place × World X
  popped me idle (ends true, w) = (record { pc = top; idle_count = idle }, w)
  popped me idle (ends false, w) = (record { pc = stealing; idle_count = idle }, w)
  popped me idle (unwound, w) = ended me dead idle w
  popped me idle (no_fuel, w) = (record { pc = popping true; idle_count = 0 }, w)

  -- A search that finds a task ends the pass; another leads to `other`.
  abbrev pub searched : WorkerThread → ℕ → Pc → Outcome Bool × World X → Place × World X
  searched me idle other (returned true, w) = (record { pc = top; idle_count = idle }, w)
  searched me idle other (returned false, w) = (record { pc = other; idle_count = idle }, w)
  searched me idle other (panicked, w) = ended me dead idle w

  unfoldable pub advance : WorkerThread → Pc → ℕ → World X → Place × World X
  advance me top idle w =
      if w.shutdown
      then ended me stopped idle w
      else (record { pc = popping false; idle_count = idle }, w)
  advance me (popping found_work) idle w = popped me idle (drain X 1 me.worker found_work w)
  advance me stealing idle w =
      searched me idle (scanning (length me.stealers) 0) (steal_global X me.worker w)
  advance me (scanning zero i) idle w = (record { pc = top; idle_count = (idle + 1) % 2 ^ 32 }, w)
  advance me (scanning (suc n) i) idle w =
      searched me idle (scanning n (i + 1)) (scan_round X me i (give_up X) w)
  advance me stopped idle w = (record { pc = stopped; idle_count = idle }, w)
  advance me dead idle w = (record { pc = dead; idle_count = idle }, w)

  pub record System : Type 0 where
    pub world : World X
    pub places : ℕ → Place

  abbrev pub moved : System → ℕ → Place × World X → System
  moved s i (p, w) = record { world = w; places = update s.places i p }

  -- One step of the system with `n` workers. `client` says which futures the program spawns
  -- `helping` whether it calls `block_on`.
  pub data Step (n : ℕ) (client : ℕ → Future V → Type 0) (helping : Bool) (s : System)
      : System → Type 0 where
    work :
        (i : ℕ)
        → i < n
        → Step n client helping s
            (moved s i (advance (started i) (s.places i).pc (s.places i).idle_count s.world))
    spawned :
        (f : Future V)
        → client s.world.next_channel f
        → Step n client helping s (record s { world = (spawn X f s.world).1 })
    joined :
        (j : JoinHandle)
        → Step n client helping s (record s { world = (poll_handle X j s.world).1 })
    blocked :
        (j : JoinHandle) (backoff_count : ℕ)
        → helping ≡ true
        → Step n client helping s (record s { world = (turn X j backoff_count s.world).1 })
    dropped : Step n client helping s (record s { world = shut_down X s.world })
    -- All workers were joined, and the fields of `ExecutorInner` go, once.
    joined_all :
        s.world.shutdown ≡ true
        → 0 < s.world.queue_holders
        → ((i : ℕ) → i < n → Over (s.places i).pc)
        → Step n client helping s (record s { world = let_go_queue X s.world })

  abbrev pub start : Option ℕ → ℕ → Heap → System
  start available next_id h = record {
    world = (new X available next_id h).1;
    places = λ _. record { pc = top; idle_count = 0 };
  }

  pub data Reach (available : Option ℕ) (client : ℕ → Future V → Type 0) (helping : Bool)
      : System → Type 0 where
    begin : (next_id : ℕ) (h : Heap) → Reach available client helping (start available next_id h)
    later :
        {s t : System}
        → Reach available client helping s
        → Step (num_workers available) client helping s t
        → Reach available client helping t

  -- What the threads may do from the state `s` on.
  pub data Steps (n : ℕ) (client : ℕ → Future V → Type 0) (helping : Bool) (s : System)
      : System → Type 0 where
    here : Steps n client helping s s
    onward :
        {t u : System}
        → Steps n client helping s t
        → Step n client helping t u
        → Steps n client helping s u
