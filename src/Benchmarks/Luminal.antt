-- ===== src/Benchmarks/Luminal.antt =====
-- The benchmarks of src/main.rs on this runtime. `others` is what other threads do while one waits.
pub mod Owing
pub mod Runs
use luminal.Prelude.{ℕ, zero, suc, ◌+◌, ◌%◌, ◌^◌, Option}
use luminal.Crossbeam.{Crossbeam}
use luminal.Errors.{RuntimeError}
use luminal.Task.{JoinHandle, value, joins, Task}
use luminal.World.{World}
use luminal.Worker.{Loop, ends, unwound, no_fuel}
use luminal.Runtime
use luminal.Runtime.{Runtime, Process, Result, ok, err}
use luminal.Benchmarks.{
  Backend, and_then, micro_task_test, cpu_intensive_test, mixed_workload_test, memory_test,
  runtime_thread,
}

-- What the benchmark for high throughput prints, but for the times.
pub record HighThroughput : Type 0 where
  pub total : ℕ
  pub stats : ℕ × ℕ
  pub cpu_total : ℕ
  pub mixed_total : ℕ
  pub final_stats : ℕ × ℕ

module _ (X : Crossbeam (Task ℕ) ℕ) (others : ℕ → World X → World X) (fuel : ℕ) where
  abbrev pub on_luminal : Runtime → Backend (Process X)
  on_luminal rt = record {
    Handle = JoinHandle;
    spawn = Runtime.spawn X rt;
    wait = λ handle. Runtime.block_on X others fuel rt (joins handle value);
  }

  -- `Runtime::new().unwrap()`, and the code up to the drop of the runtime.
  abbrev pub with_runtime :
      {A : Type 0}
      → Result Runtime × Process X
      → (Runtime → Process X → Loop A × Process X)
      → Loop A × Process X
  with_runtime (ok rt, p) body = let (r, p') = body rt p in (r, Runtime.release X rt.executor p')
  with_runtime (err e, p) body = (unwound, p)

  unfoldable pub high_throughput_benchmark : Option ℕ → Process X → Loop HighThroughput × Process X
  high_throughput_benchmark available p = with_runtime (Runtime.new X available p) (λ rt p0.
      and_then (micro_task_test (on_luminal rt) 100000 p0) (λ total p1.
        and_then (cpu_intensive_test (on_luminal rt) 16 100000 p1) (λ cpu_total p2.
          and_then (mixed_workload_test (on_luminal rt) 8 50000 50000 p2) (λ mixed_total p3. (
            ends (record {
              total = total;
              stats = Runtime.stats X rt p1;
              cpu_total = cpu_total;
              mixed_total = mixed_total;
              final_stats = Runtime.stats X rt p3;
            }),
            p3,
          )))))

  unfoldable pub memory_pressure_test : Option ℕ → Process X → Loop ℕ × Process X
  memory_pressure_test available p =
      with_runtime (Runtime.new X available p) (λ rt. memory_test (on_luminal rt) 10000)

  -- The threads, from `runtime_id` on: `n` are left. They have a runtime each, and share only the
  -- counter, so that one runs after the other here. A thread that panics makes `join().unwrap()` panic.
  unfoldable pub run_threads : Option ℕ → ℕ → ℕ → ℕ → Process X → Loop ℕ × Process X
  run_threads available zero runtime_id grand_total p = (ends grand_total, p)
  run_threads available (suc n) runtime_id grand_total p =
      let rest : ℕ → Process X → Loop ℕ × Process X = run_threads available n (runtime_id + 1) in
      and_then
        (with_runtime (Runtime.new X available p)
          (λ rt. runtime_thread (on_luminal rt) runtime_id 10000))
        (λ total. rest ((grand_total + total) % 2 ^ 64))

  unfoldable pub concurrent_runtime_test : Option ℕ → Process X → Loop ℕ × Process X
  concurrent_runtime_test available p = run_threads available 4 0 0 p
