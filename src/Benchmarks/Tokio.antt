-- ===== src/Benchmarks/Tokio.antt =====
-- The benchmarks of src/main.rs for tokio, which is a parameter: `tokio` is `tokio::spawn` and the
-- await of its handle, and `runtime` the state of a runtime that is new.
use native.Mathlib.Nat.{mod-eq_of_lt}
use luminal.Prelude.{ℕ, zero, suc, ◌+◌, ◌-◌, ◌*◌, ◌%◌, ◌^◌, ◌≡◌, ◌≤◌, ◌<◌, ◌∙◌, refl, ap, [], arith}
use luminal.Task.{Future, value}
use luminal.Task.Finite.{Gives}
use luminal.Worker.{Loop, ends}
use luminal.Workloads.{
  micro_task, cpu_intensive_task-value, product_task, memory_task, tokio_micro_task,
  tokio_cpu_intensive_task, tokio_cpu_intensive_task-Gives,
}
use luminal.Benchmarks.{Backend, and_then, run_tasks, run_two}
use luminal.Benchmarks.Totals.{Reliable, and_then-ends}
use luminal.Benchmarks.Prints.{
  micro_task_test-Prints, cpu_intensive_test-Prints, mixed_workload_test-Prints, memory_test-Prints,
  runtime_thread-Prints, threads_sum,
}

pub record TokioThroughput : Type 0 where
  pub total : ℕ
  pub cpu_total : ℕ
  pub mixed_total : ℕ

module _ {T : Type 0} (tokio : Backend T) (runtime : T) where
  unfoldable pub tokio_high_throughput_benchmark : T → Loop TokioThroughput × T
  tokio_high_throughput_benchmark w =
      and_then (run_tasks tokio tokio_micro_task 100000 w) (λ total w1.
        and_then (run_tasks tokio (λ _. tokio_cpu_intensive_task 100000) 16 w1) (λ cpu_total w2.
          and_then (run_two tokio (λ _. tokio_cpu_intensive_task 50000) 8 tokio_micro_task 50000 w2)
            (λ mixed_total w3. (
              ends (record { total = total; cpu_total = cpu_total; mixed_total = mixed_total }),
              w3,
            ))))

  unfoldable pub tokio_memory_pressure_test : T → Loop ℕ × T
  tokio_memory_pressure_test w = run_tasks tokio memory_task 10000 w

  -- The threads, from `runtime_id` on: `n` are left. Each has a runtime of its own.
  unfoldable pub tokio_run_threads : ℕ → ℕ → ℕ → Loop ℕ
  tokio_run_threads zero runtime_id grand_total = ends grand_total
  tokio_run_threads (suc n) runtime_id grand_total =
      let rest : ℕ → Loop ℕ = tokio_run_threads n (runtime_id + 1) in
      (and_then (run_tasks tokio (product_task runtime_id) 10000 runtime)
        (λ total w. (rest ((grand_total + total) % 2 ^ 64), w))).0

  unfoldable pub tokio_concurrent_runtime_test : Loop ℕ
  tokio_concurrent_runtime_test = tokio_run_threads 4 0 0

  module _ {limit : ℕ} (R : Reliable tokio limit)
      (accepts : (v : ℕ) (f : Future ℕ) → Gives v f → R.Accepts v f) where
    easy : (v : ℕ) → R.Accepts v (value v)
    easy v = accepts v (value v) refl

    -- On tokio, if the await of a handle gives the result of its future, up to 100000 handles at a
    -- time, the benchmark for high throughput prints the same sums as on this runtime.
    pub tokio_high_throughput_benchmark-ends :
        (w : T)
        → 100000 ≤ limit
        → R.Owed [] w
        → (tokio_high_throughput_benchmark w).0
          ≡ ends (record {
            total = 9999900000;
            cpu_total = 5333253333600000;
            mixed_total = 333325833350000;
          })
    unfolding tokio_high_throughput_benchmark micro_task tokio_micro_task
    tokio_high_throughput_benchmark-ends w enough o =
        let (t, sum_t, is_t) = cpu_intensive_task-value 100000 (omega arith) in
        let (u, sum_u, is_u) = cpu_intensive_task-value 50000 (omega arith) in
        let cpu : 16 * t ≡ 5333253333600000 = omega (arith, sum_t) in
        let mixed : 8 * u + (50000 * 50000 - 50000) ≡ 333325833350000 = omega (arith, sum_u) in
        let task = tokio_cpu_intensive_task 100000 in
        let (e1, o1) = micro_task_test-Prints tokio R easy 100000 w (omega arith) (omega arith) o in
        let w1 = (run_tasks tokio tokio_micro_task 100000 w).1 in
        let (e2, o2) =
          cpu_intensive_test-Prints tokio R easy task 16 t w1 (omega arith)
            (accepts t task (tokio_cpu_intensive_task-Gives t 100000 is_t)) (omega arith) o1 in
        let w2 = (run_tasks tokio (λ _. task) 16 w1).1 in
        let task' = tokio_cpu_intensive_task 50000 in
        let (e3, o3) =
          mixed_workload_test-Prints tokio R easy task' 8 50000 u w2 (omega arith) (omega arith)
            (accepts u task' (tokio_cpu_intensive_task-Gives u 50000 is_u)) (omega arith) o2 in
        ap (λ r. r.0) (and_then-ends (run_tasks tokio tokio_micro_task 100000 w) _ _ e1)
        ∙ ap (λ r. r.0) (and_then-ends (run_tasks tokio (λ _. task) 16 w1) _ _ e2)
        ∙ ap (λ r. r.0)
            (and_then-ends (run_two tokio (λ _. task') 8 tokio_micro_task 50000 w2) _ _ e3)
        ∙ (λ i. ends (record { total = 9999900000; cpu_total = cpu i; mixed_total = mixed i }))

    -- On tokio, under the same condition for 10000 handles, the test of the memory prints 2500000.
    pub tokio_memory_pressure_test-ends :
        (w : T) → 10000 ≤ limit → R.Owed [] w → (tokio_memory_pressure_test w).0 ≡ ends 2500000
    unfolding tokio_memory_pressure_test
    tokio_memory_pressure_test-ends w enough o =
        (memory_test-Prints tokio R easy 10000 w enough (omega arith) o).0

    tokio_run_threads-ends :
        (n r total : ℕ)
        → 10000 ≤ limit
        → R.Owed [] runtime
        → n + r ≤ 100
        → total + threads_sum n r < 2 ^ 64
        → tokio_run_threads n r total ≡ ends (total + threads_sum n r)
    unfolding tokio_run_threads
    tokio_run_threads-ends zero r total enough o few small = ap ends (omega arith)
    tokio_run_threads-ends (suc n) r total enough o few small =
        let thread : (run_tasks tokio (product_task r) 10000 runtime).0 ≡ ends (r * 49995000) =
          (runtime_thread-Prints tokio R easy r 10000 runtime enough (omega arith) (omega arith)
            o).0
          ∙ ap ends (omega arith) in
        let exact : (total + r * 49995000) % 2 ^ 64 ≡ total + r * 49995000 =
          mod-eq_of_lt (omega arith) in
        ap (λ x. x.0) (and_then-ends (run_tasks tokio (product_task r) 10000 runtime) _ _ thread)
        ∙ rw exact (
            tokio_run_threads-ends n (r + 1) (total + r * 49995000) enough o (omega arith)
              (omega arith)
            ∙ ap ends (omega arith))

    -- On tokio, under the same condition for 10000 handles, and if a new runtime owes nothing, the test
    -- with several runtimes prints 299970000.
    pub tokio_concurrent_runtime_test-ends :
        10000 ≤ limit → R.Owed [] runtime → tokio_concurrent_runtime_test ≡ ends 299970000
    unfolding tokio_concurrent_runtime_test
    tokio_concurrent_runtime_test-ends enough o =
        tokio_run_threads-ends 4 0 0 enough o (omega arith) (omega arith)
