-- ===== src/Tests/Systems.antt =====
-- An executor with one worker, and a program that spawns one future.
use mathlib.Core.Path.{subst}
use luminal.Prelude.{
  ◌<◌, ℕ, zero, suc, ◌+◌, ◌%◌, ◌^◌, ◌≡◌, refl, Bool, true, false, some, ℕ_discrete, [], arith,
}
use luminal.Crossbeam.{Crossbeam}
use luminal.Crossbeam.Listed.{listed}
use luminal.Waker.{Heap, create_task_waker, into_raw, drop, deref, free, check_aligned}
use luminal.Worker.StealOrder.{started}
use luminal.Worker.{drain, steal_global, run_task}
use luminal.Task.{JoinHandle, Future, value, Task}
use luminal.Task.Poll.{ready, returned, poll, poll_box, poll_future}
use luminal.Executor.{spawn, spawn_internal, deliver, stats, poll_task}
use luminal.Executor.Balance.{backlog}
use luminal.Executor.BlockOn.{turn, result}
use luminal.Executor.Threads.{num_workers, new, start_workers}
use luminal.JoinHandle.{poll_handle}
use luminal.System.{Over, System, work, spawned, Reach, begin, later, start, advance, moved}
use luminal.System.Safety.{Reach-delivers, Promising}
use luminal.System.Books.{Reach-stats, Running}

abbrev pub lists : Crossbeam (Task ℕ) ℕ
lists = listed (Task ℕ) ℕ

-- The channel 0 promises 7, the next one 8, and so on.
abbrev Offset : ℕ → ℕ → Type 0
Offset c v = v ≡ 7 + c

abbrev pub handle : JoinHandle
handle = record { id = record { raw = 1 }; receiver = 0 }

abbrev empty_heap : Heap
empty_heap = record { boxes = 0; live = [] }

-- Two futures that are spawned, and then the steps of the worker.
abbrev begun : System lists
begun =
    let s = start lists (some 1) 1 empty_heap in
    record s { world = (spawn lists (value 8) (spawn lists (value 7) s.world).1).1 }

abbrev pub step : System lists → System lists
step s = moved lists s 0 (advance lists (started 0) (s.places 0).pc (s.places 0).idle_count s.world)

abbrev pub steps : ℕ → System lists
steps zero = begun
steps (suc n) = step (steps n)

pub steps-Reach :
    (client : ℕ → Future ℕ → Type 0) (helping : Bool) (n : ℕ)
    → client 0 (value 7)
    → client 1 (value 8)
    → Reach lists (some 1) client helping (steps n)
unfolding num_workers new start_workers spawn
steps-Reach client helping zero h k =
    later (later (begin 1 empty_heap) (spawned (value 7) h)) (spawned (value 8) k)
steps-Reach client helping (suc n) h k =
    later (steps-Reach client helping n h k) (work 0 (omega arith))

-- The worker comes to the flag, finds its own queue empty, and takes the task from the global queue.
run_result : (turn lists handle 0 (steps 3).world).0 ≡ returned (result 7)
unfolding turn advance spawn spawn_internal new start_workers num_workers drain steal_global
    run_task poll_task poll poll_box poll_future deliver create_task_waker into_raw drop deref free
    check_aligned ℕ_discrete
run_result = refl

run_stats : stats lists (steps 3).world ≡ (0, 1)
unfolding stats turn advance spawn spawn_internal new start_workers num_workers drain steal_global
    run_task poll_task poll poll_box poll_future deliver create_task_waker into_raw drop deref free
    check_aligned ℕ_discrete
run_stats = refl

Reach-delivers_example :
    ((turn lists handle 0 (steps 3).world).0 ≡ returned (result 7) → Offset 0 7)
    × ((poll_handle lists handle (steps 3).world).0 ≡ ready 7 → Offset 0 7)
Reach-delivers_example =
    Reach-delivers lists Offset (steps-Reach (Promising lists Offset) true 3 refl refl) handle 0 7

one_worker : 0 < num_workers (some 1)
unfolding num_workers
one_worker = omega arith

still-Running : Running lists (num_workers (some 1)) (steps 3)
unfolding num_workers turn advance spawn spawn_internal new start_workers drain steal_global
    run_task poll_task poll poll_box poll_future deliver create_task_waker into_raw drop deref free
    check_aligned ℕ_discrete
still-Running i lt over =
    let first : i ≡ 0 = omega arith in subst (λ k. Over ((steps 3).places k).pc) first over

Reach-stats_example :
    (steps 3).world.next_task_id
    ≡ (backlog lists (num_workers (some 1)) (steps 3).world + (stats lists (steps 3).world).1 + 1)
      % 2 ^ 64
Reach-stats_example =
    Reach-stats lists (steps-Reach (λ c f. Unit) false 3 tt tt) one_worker still-Running
