-- ===== src/Tests/Workers.antt =====
-- Workers that take tasks from each other, and a thread that is blocked.
use luminal.Prelude.{
  ℕ, ◌+◌, ◌*◌, ◌≤◌, ◌≡◌, refl, true, false, none, some, [], ◌∷◌, All, length, arith, update, total,
  ℕ_discrete,
}
use luminal.Crossbeam.{Crossbeam}
use luminal.Crossbeam.Listed.{listed, uncontended, take_front-ne}
use luminal.Task.{Future, value, yields, spawns, panics, wrapped, Task}
use luminal.Task.Poll.{poll, ready, returned, poll_future}
use luminal.Task.Poll.Promise.{poll-Honest, Honest}
use luminal.Waker.{Heap}
use luminal.World.{World}
use luminal.Executor.{poll_task, host}
use luminal.Executor.Balance.{backlog}
use luminal.Executor.BlockOn.{block_on}
use luminal.Executor.BlockOn.Counting.{block_on-tasks_processed}
use luminal.Executor.BlockOn.Liveness.{block_on-alone}
use luminal.Executor.Promise.{Kept, host-Trusted}
use luminal.Executor.Threads.{num_workers, new, start_workers, fresh}
use luminal.Worker.{ends, pass, run, scan, drain, run_task, drop_self}
use luminal.Worker.NoStd.{run_no_std, run-run_no_std}
use luminal.Worker.Balance.{PassBooks, pass-Books}
use luminal.Worker.Passes.{Passes, pass-Passes}
use luminal.Worker.StealOrder.{started, started-IsWired, try_all, span, scan-new, new-IsWired}
use luminal.System.{popping, Over}
use luminal.System.Shutdown.{runs, runs-Over}
use luminal.Worker.Liveness.{run-delivers}
use luminal.Worker.Liveness.Served.{worker_passes, block_on-served}
use luminal.JoinHandle.{poll_handle}
use luminal.Executor.{spawn, spawn_internal, deliver, abandon}
use luminal.Executor.Drops.{let_go, let_go_all, let_go_queue, discard_all}
use luminal.Waker.{create_task_waker, into_raw, drop, deref, free, check_aligned}
use luminal.Task.Poll.{poll_box}
use luminal.Workloads.{cpu_intensive_task, cpu_intensive_task-once}
use luminal.Worker.Wiring.{IsWired}

abbrev lists : Crossbeam (Task ℕ) ℕ
lists = listed (Task ℕ) ℕ

abbrev empty_heap : Heap
empty_heap = record { boxes = 0; live = [] }

abbrev task : ℕ → Future ℕ → Task ℕ
task n f = record { id = record { raw = n }; future = wrapped n f }

-- Two workers; three tasks were spawned, one of which waits in the global queue, and two in the
-- queue of the first worker. The second of these panics.
abbrev busy : World lists
busy = record (fresh lists 1 empty_heap) {
  global_queue = record { entries = task 1 (value 4) ∷ []; races = true ∷ [] };
  next_task_id = 4;
  deques = update (λ _. []) 0 (task 2 (yields (value 5)) ∷ task 3 panics ∷ []);
}

pass-Books_example : PassBooks lists 2 1 (pass lists 3 (started 1) 0 busy)
unfolding backlog total ℕ_discrete
pass-Books_example =
    pass-Books lists 2 1 3 (started 1) 0 busy (started-IsWired 2 1 (omega arith)) refl

pass-Passes_example : Passes lists false busy (pass lists 3 (started 0) 5 busy)
unfolding ℕ_discrete
pass-Passes_example = pass-Passes lists 3 (started 0) 5 busy (omega arith)

run-run_no_std_example : run lists 4 3 (started 1) 99 busy ≡ run_no_std lists 4 3 (started 1) busy
run-run_no_std_example = run-run_no_std lists 4 3 (started 1) 99 busy

-- The executor of these workers is dropped.
abbrev closing : World lists
closing = record busy { shutdown = true }

-- Another thread spawns.
abbrev meanwhile : ℕ → World lists → World lists
meanwhile k w = (spawn lists (value 8) w).1

runs-Over_example :
    Over
      (runs lists meanwhile 7
        (started 0)
        (record { pc = popping false; idle_count = 0 }, closing)).0.pc
unfolding ℕ_discrete spawn spawn_internal
runs-Over_example =
    runs-Over lists meanwhile 7 (started 0) (record { pc = popping false; idle_count = 0 }) closing
      (λ l u h. h) (λ l u. omega arith) refl (omega arith)

scan-new_example :
    All
      (λ me.
        (w : World lists)
        → scan lists me (length me.stealers) 0 w ≡ try_all lists (span 0 me.id) me.worker w)
      (new lists (some 3) 1 empty_heap).0
scan-new_example = scan-new lists (some 3) 1 empty_heap

new-IsWired_example : All (IsWired (num_workers none)) (new lists none 1 empty_heap).0
new-IsWired_example = new-IsWired lists none 1 empty_heap

block_on-tasks_processed_example :
    (block_on lists (λ i w. w) 5 (yields (value 3)) busy).1.tasks_processed ≡ 0
block_on-tasks_processed_example =
    block_on-tasks_processed lists (λ i w. w) (λ i n u h. h) 5 (yields (value 3)) busy

abbrev calm : Crossbeam (Task ℕ) ℕ
calm = uncontended (Task ℕ) ℕ

-- One task waits in the global queue, and there is no worker.
abbrev alone : World calm
alone = record (fresh calm 1 empty_heap) {
  global_queue = record { entries = task 0 (yields (value 4)) ∷ []; races = [] };
  next_task_id = 2;
  next_channel = 1;
}

block_on-alone_example :
    (block_on calm (λ l u. u) 6 (spawns (value 2) (λ j. yields (value 9))) alone).0 ≡ ends 9
block_on-alone_example =
    block_on-alone calm (λ q. take_front-ne q.entries) 6 3 1 2 0
      (spawns (value 2) (λ j. yields (value 9))) 9 alone
      (1, 0, 2, 0, omega arith, omega arith, omega arith, λ j. (1, omega arith, omega arith))
      (λ j. refl) (2, 0, 0, 0, omega arith, omega arith, (1, omega arith, omega arith), tt)
      (λ same. absurd (omega arith), tt) (omega arith)

run-delivers_example :
    (k : ℕ) × (k ≤ 5)
    × ((poll_handle calm
          (spawn calm (spawns (value 2) (λ j. yields (value 9))) alone).0
          (run calm k 6
            (started 0)
            0
            (spawn calm (spawns (value 2) (λ j. yields (value 9))) alone).1).1).0
        ≡ ready 9)
run-delivers_example =
    run-delivers calm (λ q. take_front-ne q.entries) (started 0) 6 0 3 1 2 0
      (spawns (value 2) (λ j. yields (value 9))) 9 alone
      (1, 0, 2, 0, omega arith, omega arith, omega arith, λ j. (1, omega arith, omega arith))
      (λ j. refl) (2, 0, 0, 0, omega arith, omega arith, (1, omega arith, omega arith), tt)
      (λ same. absurd (omega arith), tt) refl (omega arith)

-- The worker has a task of its own besides.
abbrev attended : World calm
attended = record alone { deques = update (λ _. []) 0 (task 5 (value 3) ∷ []) }

block_on-served_example :
    (block_on calm
      (worker_passes calm 7 (λ l. l))
      7
      (spawns (value 2) (λ j. yields (value 9)))
      attended).0
    ≡ ends 9
unfolding ℕ_discrete
block_on-served_example =
    block_on-served calm (λ q. take_front-ne q.entries) 7 (λ l. l) 7 3 1 3 0
      (spawns (value 2) (λ j. yields (value 9))) 9 attended
      (1, 0, 2, 0, omega arith, omega arith, omega arith, λ j. (1, omega arith, omega arith))
      (λ j. refl)
      (
        1,
        0,
        2,
        0,
        omega arith,
        omega arith,
        omega arith,
        (2, 0, 0, 0, omega arith, omega arith, (1, omega arith, omega arith), tt),
      )
      (λ same. absurd (omega arith), (λ same. absurd (omega arith), tt)) refl (omega arith)
      (omega arith)

-- The only worker dies of the first of its tasks: its deque goes, with the other task and its sender.
abbrev doomed : World lists
doomed =
    let w = (new lists (some 1) 1 empty_heap).1 in
    record w { deques = update w.deques 0 (task 3 panics ∷ task 1 (value 4) ∷ []) }

doomed_deque : (run lists 1 3 (started 0) 0 doomed).1.deques 0 ≡ []
unfolding new start_workers num_workers run pass drain run_task poll_task poll poll_box poll_future
    drop_self let_go_all let_go let_go_queue discard_all abandon deliver create_task_waker into_raw
    drop deref free check_aligned ℕ_discrete
doomed_deque = refl

doomed_sender : lists.live ((run lists 1 3 (started 0) 0 doomed).1.channels 1) ≡ false
unfolding new start_workers num_workers run pass drain run_task poll_task poll poll_box poll_future
    drop_self let_go_all let_go let_go_queue discard_all abandon deliver create_task_waker into_raw
    drop deref free check_aligned ℕ_discrete
doomed_sender = refl

cpu_intensive_task-once_example :
    (t : ℕ) × (6 * t + 3 * (1500 * 1500) ≡ 2 * (1500 * 1500 * 1500) + 1500)
    × (poll_future (host lists) (cpu_intensive_task 1500) busy ≡ (returned (ready t), panics, busy))
cpu_intensive_task-once_example = cpu_intensive_task-once (host lists) 1500 busy (omega arith)

-- Every channel promises 7.
abbrev Seven : ℕ → ℕ → Type 0
Seven c v = v ≡ 7

abbrev idle : World lists
idle = fresh lists 1 empty_heap

poll-Honest_example :
    Honest Seven (poll (host lists) (task 0 (yields (value 7))) idle).1.future
    × Kept lists Seven (poll (host lists) (task 0 (yields (value 7))) idle).2
poll-Honest_example =
    poll-Honest Seven (Kept lists Seven) (host-Trusted lists Seven) (task 0 (yields (value 7))) idle
      refl (record { tasks = record { waiting = tt; assigned = λ d. tt }; results = λ c. tt })
