-- ===== src/Benchmarks/Prints.antt =====
-- What the tests of src/main.rs add up to, on a runtime that can be relied on.
use luminal.Prelude.{ℕ, zero, suc, ◌+◌, ◌-◌, ◌*◌, ◌/◌, ◌^◌, ◌≡◌, ◌≤◌, ◌<◌, ◌∙◌, ap, [], arith}
use luminal.Task.{Future, value}
use luminal.Worker.{Loop, ends}
use luminal.Workloads.{micro_task, product_task, memory_task}
use luminal.Benchmarks.{Backend, run_tasks, run_two, micro_task_test, memory_test, runtime_thread}
use luminal.Benchmarks.Totals.{Reliable, run_tasks-ends, run_two-ends}
use luminal.Benchmarks.Sums.{constant_sum, micro_sum, product_le, product_sum, memory_sum}

-- The threads of the test with several runtimes, from the id `r` on: what `n` of them add up.
abbrev pub threads_sum : ℕ → ℕ → ℕ
threads_sum zero r = 0
threads_sum (suc n) r = r * 49995000 + threads_sum n (r + 1)

module _ {W : Type 0} (B : Backend W) {limit : ℕ} (R : Reliable B limit)
    (easy : (v : ℕ) → R.Accepts v (value v)) where
  abbrev pub Prints : ℕ → Loop ℕ × W → Type 0
  Prints total r = (r.0 ≡ ends total) × R.Owed [] r.1

  pub micro_task_test-Prints :
      (n : ℕ) (w : W)
      → n ≤ limit
      → n ≤ 1000000
      → R.Owed [] w
      → Prints (n * n - n) (micro_task_test B n w)
  unfolding micro_task
  micro_task_test-Prints n w le small o =
      let s = micro_sum n 0 (omega arith) in
      let (e, o') =
        run_tasks-ends B R micro_task _ (λ i. easy _) n w le
          (omega (arith, s, product_le n n 1000000 1000000 small small)) o in
      (e ∙ ap ends (omega (arith, s)), o')

  -- The CPU-bound task `cpu` gives `t`.
  pub cpu_intensive_test-Prints :
      (cpu : Future ℕ) (num t : ℕ) (w : W)
      → num ≤ limit
      → R.Accepts t cpu
      → num * t < 2 ^ 64
      → R.Owed [] w
      → Prints (num * t) (run_tasks B (λ _. cpu) num w)
  cpu_intensive_test-Prints cpu num t w le e small o =
      let s = constant_sum t num 0 in
      let (done, o') =
        run_tasks-ends B R (λ _. cpu) (λ _. t) (λ i. e) num w le (omega (arith, s)) o in
      (done ∙ ap ends s, o')

  pub mixed_workload_test-Prints :
      (cpu : Future ℕ) (heavy light t : ℕ) (w : W)
      → heavy + light ≤ limit
      → light ≤ 1000000
      → R.Accepts t cpu
      → heavy * t < 2 ^ 63
      → R.Owed [] w
      → Prints (heavy * t + (light * light - light)) (run_two B (λ _. cpu) heavy micro_task light w)
  unfolding micro_task
  mixed_workload_test-Prints cpu heavy light t w le few e small o =
      let s = micro_sum light 0 (omega arith) in
      let c = constant_sum t heavy 0 in
      let (done, o') =
        run_two-ends B R (λ _. cpu) micro_task (λ _. t) _ (λ i. e) (λ i. easy _) heavy light w le
          (omega (arith, s, c, product_le light light 1000000 1000000 few few)) o in
      (done ∙ ap ends (omega (arith, s, c)), o')

  pub memory_test-Prints :
      (n : ℕ) (w : W)
      → n ≤ limit
      → n ≤ 1000000
      → R.Owed [] w
      → Prints (500 * (n / 2)) (memory_test B n w)
  unfolding memory_task
  memory_test-Prints n w le small o =
      let s = memory_sum n 0 (omega arith) in
      let (done, o') = run_tasks-ends B R memory_task _ (λ i. easy _) n w le (omega (arith, s)) o in
      (done ∙ ap ends (omega (arith, s)), o')

  pub runtime_thread-Prints :
      (r n : ℕ) (w : W)
      → n ≤ limit
      → n ≤ 1000000
      → r ≤ 100
      → R.Owed [] w
      → Prints ((r * (n * n) - r * n) / 2) (runtime_thread B r n w)
  unfolding product_task
  runtime_thread-Prints r n w le small few o =
      let s = product_sum r n 0 (omega arith) (omega arith) in
      let square = product_le n n 1000000 1000000 small small in
      let cube = product_le r (n * n) 100 1000000000000 few square in
      let (done, o') =
        run_tasks-ends B R (product_task r) _ (λ i. easy _) n w le (omega (arith, s, cube)) o in
      (done ∙ ap ends (omega (arith, s)), o')
