-- ===== src/Benchmarks/Comparison.antt =====
-- The comparison of this runtime with tokio (src/main.rs). The clock and floating-point numbers are
-- parameters, and so are the times that the clock measures.
pub mod Awaits
pub mod Winners
pub mod Verdicts
use luminal.Prelude.{ℕ, zero, suc, ◌+◌, none, some, Bool, if◌then◌else◌, List, [], ◌∷◌, Option}
use luminal.Crossbeam.{Crossbeam}
use luminal.Task.{Future, Task}
use luminal.World.{World}
use luminal.Worker.{Loop, ends}
use luminal.Runtime
use luminal.Runtime.{Runtime, Process}
use luminal.Workloads.{
  micro_task, cpu_intensive_task, product_task, memory_task, tokio_micro_task,
  tokio_cpu_intensive_task,
}
use luminal.Benchmarks.{Backend, spawn_each, and_then}
use luminal.Benchmarks.Luminal.{on_luminal, with_runtime}

module _ {W : Type 0} (B : Backend W) where
  -- The loop `for handle in handles { rt.block_on(handle); }`.
  unfoldable pub await_each : List B.Handle → W → Loop (Unit {0}) × W
  await_each [] w = (ends tt, w)
  await_each (handle ∷ handles) w = and_then (B.wait handle w) (λ _. await_each handles)

  unfoldable pub await_tasks : (ℕ → Future ℕ) → ℕ → W → Loop (Unit {0}) × W
  await_tasks task n w = let (handles, w') = spawn_each B task n 0 [] w in await_each handles w'

  unfoldable pub await_two : (ℕ → Future ℕ) → ℕ → (ℕ → Future ℕ) → ℕ → W → Loop (Unit {0}) × W
  await_two first n second m w =
      let (handles, u) = spawn_each B first n 0 [] w in
      let (handles', w') = spawn_each B second m 0 handles u in await_each handles' w'

  -- The tests on one runtime, with its micro task and its CPU-bound task.
  unfoldable pub compare_tests : (ℕ → Future ℕ) → (ℕ → Future ℕ) → W → Loop (Unit {0}) × W
  compare_tests micro cpu w = and_then (await_tasks micro 100000 w) (λ _ w1.
      and_then (await_tasks (λ _. cpu 100000) 16 w1) (λ _ w2.
        and_then (await_two (λ _. cpu 50000) 8 micro 50000 w2)
          (λ _ w3. await_tasks memory_task 10000 w3)))

module _ (X : Crossbeam (Task ℕ) ℕ) (others : ℕ → World X → World X) (fuel : ℕ) where
  -- The threads of the test with several runtimes, from `runtime_id` on: `n` are left.
  -- Their products have 32 bits in the code, and are below 2^15.
  unfoldable pub await_threads : Option ℕ → ℕ → ℕ → Process X → Loop (Unit {0}) × Process X
  await_threads available zero runtime_id p = (ends tt, p)
  await_threads available (suc n) runtime_id p =
      let rest : Process X → Loop (Unit {0}) × Process X =
        await_threads available n (runtime_id + 1) in
      and_then
        (with_runtime X others fuel (Runtime.new X available p)
          (λ rt. await_tasks (on_luminal X others fuel rt) (product_task runtime_id) 10000))
        (λ _. rest)

module _ {U : Type 0} (tokio : Backend U) (runtime : U) where
  unfoldable pub tokio_await_threads : ℕ → ℕ → U → Loop (Unit {0}) × U
  tokio_await_threads zero runtime_id u = (ends tt, u)
  tokio_await_threads (suc n) runtime_id u =
      let rest : U → Loop (Unit {0}) × U = tokio_await_threads n (runtime_id + 1) in
      and_then (await_tasks tokio (product_task runtime_id) 10000 runtime) (λ _ u'. rest u)

-- `f64`, `Duration` and what the code uses of them.
pub record Timing : Type 1 where
  pub F64 : Type 0
  pub Duration : Type 0
  pub as_f64 : ℕ → F64
  pub div : F64 → F64 → F64
  pub greater : F64 → F64 → Bool
  pub as_secs_f64 : Duration → F64
  pub from_secs : ℕ → Duration

module _ (T : Timing) where
  open T use {F64, Duration, as_f64, div, greater, as_secs_f64}

  pub record BenchmarkResults : Type 0 where
    pub micro_task_throughput : F64
    pub micro_task_duration : Duration
    pub cpu_intensive_duration : Duration
    pub mixed_workload_duration : Duration
    pub memory_pressure_duration : Duration
    pub concurrent_throughput : F64
    pub concurrent_duration : Duration

  -- What the clock measures.
  pub record Elapsed : Type 0 where
    pub micro : Duration
    pub cpu : Duration
    pub mixed : Duration
    pub memory : Duration
    pub concurrent : Duration

  unfoldable pub benchmark_results : Elapsed → BenchmarkResults
  benchmark_results e = record {
    micro_task_throughput = div (as_f64 100000) (as_secs_f64 e.micro);
    micro_task_duration = e.micro;
    cpu_intensive_duration = e.cpu;
    mixed_workload_duration = e.mixed;
    memory_pressure_duration = e.memory;
    concurrent_throughput = div (as_f64 40000) (as_secs_f64 e.concurrent);
    concurrent_duration = e.concurrent;
  }

  -- The results of tokio before the test with several runtimes.
  unfoldable pub single_results : Elapsed → BenchmarkResults
  unfolding benchmark_results
  single_results e = record (benchmark_results e) {
    concurrent_throughput = as_f64 0;
    concurrent_duration = T.from_secs 0;
  }

  pub data Verdict : Type 0 where
    luminal_faster : F64 → Verdict
    tokio_faster : F64 → Verdict

  -- The more is the better for a throughput, and the less for a duration.
  abbrev pub by_throughput : F64 → F64 → Verdict
  by_throughput ours theirs =
      let ratio = div theirs ours in
      if greater ratio (as_f64 1) then tokio_faster ratio else luminal_faster (div (as_f64 1) ratio)

  abbrev pub by_duration : Duration → Duration → Verdict
  by_duration ours theirs =
      let ratio = div (as_secs_f64 theirs) (as_secs_f64 ours) in
      if greater ratio (as_f64 1) then luminal_faster ratio else tokio_faster (div (as_f64 1) ratio)

  -- What is printed on one test: for a throughput, both throughputs and times, and else the times.
  pub record Section : Type 0 where
    pub throughputs : Option (F64 × F64)
    pub luminal_duration : Duration
    pub tokio_duration : Duration
    pub verdict : Verdict

  abbrev pub on_throughput : F64 → Duration → F64 → Duration → Section
  on_throughput ours our_time theirs their_time = record {
    throughputs = some (ours, theirs);
    luminal_duration = our_time;
    tokio_duration = their_time;
    verdict = by_throughput ours theirs;
  }

  abbrev pub on_duration : Duration → Duration → Section
  on_duration ours theirs = record {
    throughputs = none;
    luminal_duration = ours;
    tokio_duration = theirs;
    verdict = by_duration ours theirs;
  }

  -- The sections, in the order in which they are printed.
  unfoldable pub print_performance_comparison : BenchmarkResults → BenchmarkResults → List Section
  print_performance_comparison ours theirs =
      on_throughput ours.micro_task_throughput ours.micro_task_duration theirs.micro_task_throughput
        theirs.micro_task_duration
      ∷ on_duration ours.cpu_intensive_duration theirs.cpu_intensive_duration
      ∷ on_duration ours.mixed_workload_duration theirs.mixed_workload_duration
      ∷ on_duration ours.memory_pressure_duration theirs.memory_pressure_duration
      ∷ on_throughput ours.concurrent_throughput ours.concurrent_duration
          theirs.concurrent_throughput theirs.concurrent_duration
      ∷ []

  module _ {U : Type 0} (tokio : Backend U) (runtime : U) where
    -- The part that measures tokio, on the runtime that `Builder` makes.
    unfoldable pub tokio_results : Elapsed → Loop BenchmarkResults × U
    unfolding single_results
    tokio_results e =
        and_then (compare_tests tokio tokio_micro_task tokio_cpu_intensive_task runtime) (λ _ u.
          let results : BenchmarkResults = single_results e in
          and_then (tokio_await_threads tokio runtime 4 0 u) (λ _ u'. (
            ends (record results {
              concurrent_throughput = div (as_f64 40000) (as_secs_f64 e.concurrent);
              concurrent_duration = e.concurrent;
            }),
            u',
          )))

    module _ (X : Crossbeam (Task ℕ) ℕ) (others : ℕ → World X → World X) (fuel : ℕ) where
      -- `ours` and `theirs` are the times of the two parts. The second runtime is not used.
      unfoldable pub run_comparison_benchmarks :
          Elapsed → Elapsed → Option ℕ → Process X → Loop (List Section) × Process X
      run_comparison_benchmarks ours theirs available p =
          with_runtime X others fuel (Runtime.new X available p) (λ rt p0.
            and_then (compare_tests (on_luminal X others fuel rt) micro_task cpu_intensive_task p0)
              (λ _ p1. and_then (await_threads X others fuel available 4 0 p1) (λ _ p2.
                with_runtime X others fuel (Runtime.new X available p2) (λ rt' p3.
                  and_then ((tokio_results theirs).0, p3)
                    (λ results p4. (
                      ends (print_performance_comparison (benchmark_results ours) results),
                      p4,
                    ))))))
