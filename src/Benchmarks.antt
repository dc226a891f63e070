-- ===== src/Benchmarks.antt =====
-- The benchmarks of src/main.rs: what they spawn and what they add up. Output and time are left out.
pub mod Totals
pub mod Sums
pub mod Prints
pub mod Luminal
pub mod Tokio
pub mod Comparison
use luminal.Prelude.{ℕ, zero, suc, ◌+◌, ◌%◌, ◌^◌, ◌≡◌, ◌≤◌, ◌<◌, List, [], ◌∷◌, ◌++◌, length}
use luminal.Task.{Future, value}
use luminal.Worker.{Loop, ends, unwound, no_fuel}
use luminal.Workloads.{micro_task, cpu_intensive_task, product_task, memory_task}

-- The runtime under test, in the state `W`: to spawn a future, and to wait for its handle
-- (`rt.block_on(handle)` on Luminal, `handle.await.unwrap()` on tokio).
pub record Backend (W : Type 0) : Type 1 where
  pub Handle : Type 0
  pub spawn : Future ℕ → W → Handle × W
  pub wait : Handle → W → Loop ℕ × W

-- What follows a part of a benchmark, unless a panic unwinds it.
abbrev pub and_then : {W A C : Type 0} → Loop A × W → (A → W → Loop C × W) → Loop C × W
and_then (ends a, w) rest = rest a w
and_then (unwound, w) rest = (unwound, w)
and_then (no_fuel, w) rest = (no_fuel, w)

module _ {W : Type 0} (B : Backend W) where
  open B use {Handle}

  -- The loop `for i in … { handles.push(rt.spawn(task(i))) }`, from `i` on: `n` rounds are left.
  unfoldable pub spawn_each : (ℕ → Future ℕ) → ℕ → ℕ → List Handle → W → List Handle × W
  spawn_each task zero i handles w = (handles, w)
  spawn_each task (suc n) i handles w =
      let (handle, w') = B.spawn (task i) w in spawn_each task n (i + 1) (handles ++ handle ∷ []) w'

  -- The loop `for handle in handles { total += rt.block_on(handle) }`.
  unfoldable pub add_each : ℕ → List Handle → W → Loop ℕ × W
  add_each total [] w = (ends total, w)
  add_each total (handle ∷ handles) w =
      and_then (B.wait handle w) (λ v. add_each ((total + v) % 2 ^ 64) handles)

  -- A test that spawns `num_tasks` tasks, and adds up what they give.
  unfoldable pub run_tasks : (ℕ → Future ℕ) → ℕ → W → Loop ℕ × W
  run_tasks task num_tasks w =
      let (handles, w') = spawn_each task num_tasks 0 [] w in add_each 0 handles w'

  abbrev pub micro_task_test : ℕ → W → Loop ℕ × W
  micro_task_test num_tasks w = run_tasks micro_task num_tasks w

  abbrev pub cpu_intensive_test : ℕ → ℕ → W → Loop ℕ × W
  cpu_intensive_test num_cpu_tasks iterations_per_task w =
      run_tasks (λ _. cpu_intensive_task iterations_per_task) num_cpu_tasks w

  -- The same with two kinds of tasks.
  unfoldable pub run_two : (ℕ → Future ℕ) → ℕ → (ℕ → Future ℕ) → ℕ → W → Loop ℕ × W
  run_two first n second m w =
      let (handles, u) = spawn_each first n 0 [] w in
      let (handles', w') = spawn_each second m 0 handles u in add_each 0 handles' w'

  abbrev pub mixed_workload_test : ℕ → ℕ → ℕ → W → Loop ℕ × W
  mixed_workload_test heavy_tasks iterations light_tasks w =
      run_two (λ _. cpu_intensive_task iterations) heavy_tasks micro_task light_tasks w

  abbrev pub memory_test : ℕ → W → Loop ℕ × W
  memory_test num_tasks w = run_tasks memory_task num_tasks w

  -- One of the threads of the test with several runtimes.
  abbrev pub runtime_thread : ℕ → ℕ → W → Loop ℕ × W
  runtime_thread runtime_id tasks_per_runtime w =
      run_tasks (product_task runtime_id) tasks_per_runtime w
