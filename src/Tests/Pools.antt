-- ===== src/Tests/Pools.antt =====
-- The bag of tasks that an executor with one worker is, for a program that spawns two futures.
use luminal.Prelude.{ℕ, ◌≡◌, refl, true, some, ℕ_discrete, arith}
use luminal.Waker.{create_task_waker, into_raw, drop, deref, free, check_aligned}
use luminal.Worker.{drain, steal_global, run_task}
use luminal.Task.{Future}
use luminal.Task.Poll.{pending, panicked, poll, poll_box, poll_future}
use luminal.Executor.{spawn, spawn_internal, deliver, poll_task}
use luminal.Executor.BlockOn.{turn}
use luminal.Executor.Threads.{num_workers, new, start_workers}
use luminal.JoinHandle.{poll_handle}
use luminal.System.{System, work, joined, later, here, onward, advance}
use luminal.Pool.{Runs}
use luminal.Pool.Contents.{bag}
use luminal.Pool.View.{view}
use luminal.Pool.Refines.{Reach-Runs}
use luminal.Pool.Senders.{Reach-senders, senders, due}
use luminal.Pool.Severed.{Severed, Steps-Severed}
use luminal.Tests.Systems.{lists, handle, step, steps, steps-Reach}

abbrev AnyFuture : ℕ → Future ℕ → Type 0
AnyFuture c f = Unit

Reach-Runs_example : Runs lists AnyFuture true (view lists (num_workers (some 1)) (steps 3).world)
Reach-Runs_example = Reach-Runs lists (steps-Reach AnyFuture true 3 tt tt)

Reach-senders_example :
    senders lists 1 (bag lists (num_workers (some 1)) (steps 3).world)
    ≡ due lists 1 (steps 3).world.channels (steps 3).world.next_channel
Reach-senders_example = Reach-senders lists (steps-Reach AnyFuture true 3 tt tt) 1

-- The result of the first future is taken.
abbrev taken : System lists
taken = record (steps 3) { world = (poll_handle lists handle (steps 3).world).1 }

taken-Severed : Severed lists 0 taken.world.channels taken.world.next_channel
unfolding poll_handle turn advance spawn spawn_internal new start_workers num_workers drain
    steal_global run_task poll_task poll poll_box poll_future deliver create_task_waker into_raw
    drop deref free check_aligned ℕ_discrete
taken-Severed = record { made = omega arith; unsent = refl; unqueued = refl }

Steps-Severed_example :
    ((poll_handle lists handle (step taken).world).0 ≡ pending)
    × ((n : ℕ) → (turn lists handle n (step taken).world).0 ≡ panicked)
unfolding num_workers
Steps-Severed_example =
    Steps-Severed lists {available = some 1} {client = AnyFuture} {helping = true} {s = taken}
      {t = step taken} (later (steps-Reach AnyFuture true 3 tt tt) (joined handle))
      (onward here (work 0 (omega arith))) handle taken-Severed
