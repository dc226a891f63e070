-- ===== src/Benchmarks/Luminal/Runs.antt =====
-- What the benchmarks of src/main.rs print on this runtime, while its workers do nothing.
use native.Mathlib.Nat.{mod-eq_of_lt}
use mathlib.Core.Path.{subst, ap₂}
use luminal.Prelude.{
  ℕ, zero, suc, ◌+◌, ◌-◌, ◌*◌, ◌%◌, ◌^◌, ◌≡◌, ◌≢◌, ◌≤◌, ◌<◌, ◌∙◌, refl, sym, ap, List, [], Option,
  arith, update_self, length,
}
use luminal.Crossbeam.{Crossbeam, Steal}
use luminal.Task.{value, Task}
use luminal.World.{World}
use luminal.Worker.{Loop, ends}
use luminal.Executor
use luminal.Executor.Threads.{num_workers, start_workers, fresh}
use luminal.Executor.Threads
use luminal.Executor.BlockOn.Handles.{nothing-Owed}
use luminal.Executor.BlockOn.Handles.Waits.{Owed-unqueued}
use luminal.Runtime
use luminal.Runtime.{Runtime, Process, Cell}
use luminal.Workloads.{cpu_intensive_task, cpu_intensive_task-value}
use luminal.Benchmarks.{micro_task_test, cpu_intensive_test, mixed_workload_test, runtime_thread}
use luminal.Benchmarks.Luminal.{
  on_luminal, with_runtime, high_throughput_benchmark, memory_pressure_test, run_threads,
  concurrent_runtime_test,
}
use luminal.Benchmarks.Luminal.Owing.{Owes, on_luminal-Reliable}
use luminal.Benchmarks.Totals.{and_then-ends}
use luminal.Benchmarks.Prints.{
  micro_task_test-Prints, cpu_intensive_test-Prints, mixed_workload_test-Prints, memory_test-Prints,
  runtime_thread-Prints, threads_sum,
}

module _ (X : Crossbeam (Task ℕ) ℕ) where
  start_workers-Idle :
      (n i : ℕ) (stealers : List ℕ) (w : World X)
      → ((start_workers X n i stealers w).1.global_queue ≡ w.global_queue)
        × ((start_workers X n i stealers w).1.tasks_processed ≡ w.tasks_processed)
  unfolding start_workers
  start_workers-Idle zero i stealers w = (refl, refl)
  start_workers-Idle (suc n) i stealers w = start_workers-Idle n (i + 1) _ _

  new-Owes :
      (available : Option ℕ) (p : Process X)
      → Owes X [] ((Runtime.new X available p).1.cells p.next_cell).world
  unfolding Runtime.new Threads.new
  new-Owes available p =
      let crew = Threads.new X available 1 (record { boxes = 0; live = [] }) in
      let (queue, processed) =
        start_workers-Idle (num_workers available) 0 []
          (fresh X 1 (record { boxes = 0; live = [] })) in
      let c : Cell X = record { strong = 1; world = crew.1; workers = crew.0 } in
      subst (λ (d : Cell X). Owes X [] d.world) (sym (update_self p.cells p.next_cell c))
        (nothing-Owed X crew.1 (ap X.items queue ∙ X.items-new), processed)

  module _ (calm : (q : X.Injector) → (X.steal q).0 ≢ Steal.retry) (fuel : ℕ) where
    abbrev pub idle : ℕ → World X → World X
    idle k w = w

    -- A benchmark with a runtime of its own gives what it gives on a runtime that owes nothing.
    pub with_runtime-ends :
        {A : Type 0} (available : Option ℕ) (p : Process X)
        → (body : Runtime → Process X → Loop A × Process X) (a : A)
        → ((rt : Runtime) (p' : Process X)
            → Owes X [] (p'.cells rt.executor).world
            → (body rt p').0 ≡ ends a)
        → (with_runtime X idle fuel (Runtime.new X available p) body).0 ≡ ends a
    unfolding Runtime.new
    with_runtime-ends available p body a h = h _ _ (new-Owes available p)

    stats-Owes :
        (rt : Runtime) (p : Process X)
        → Owes X [] (p.cells rt.executor).world
        → Runtime.stats X rt p ≡ (0, 0)
    unfolding Runtime.stats Executor.stats
    stats-Owes rt p (o, z) =
        let w = (p.cells rt.executor).world in
        let empty : X.len w.global_queue ≡ 0 =
          X.len_lem w.global_queue ∙ ap length (Owed-unqueued X w o) in
        ap₂ (λ n m. (n, m)) empty z

    -- The benchmark for high throughput comes to its end and prints these sums, if no steal of a single
    -- task loses a race and no other thread does anything, on a fuel of 100002. It prints, both times,
    -- that no task is queued and that none was processed: the blocked thread does not count those that
    -- it runs.
    pub high_throughput_benchmark-alone :
        (available : Option ℕ) (p : Process X)
        → 100002 ≤ fuel
        → (high_throughput_benchmark X idle fuel available p).0
          ≡ ends (record {
            total = 9999900000;
            stats = (0, 0);
            cpu_total = 5333253333600000;
            mixed_total = 333325833350000;
            final_stats = (0, 0);
          })
    unfolding high_throughput_benchmark on_luminal-Reliable
    high_throughput_benchmark-alone available p enough =
        let (t, sum_t, is_t) = cpu_intensive_task-value 100000 (omega arith) in
        let (u, sum_u, is_u) = cpu_intensive_task-value 50000 (omega arith) in
        let cpu : 16 * t ≡ 5333253333600000 = omega (arith, sum_t) in
        let mixed : 8 * u + (50000 * 50000 - 50000) ≡ 333325833350000 = omega (arith, sum_u) in
        with_runtime-ends available p _ _ (λ rt p0 o.
          let B = on_luminal X idle fuel rt in
          let R = on_luminal-Reliable X calm fuel rt in
          let easy : (v : ℕ) → R.Accepts v (value v) = λ v. refl in
          let (e1, o1) = micro_task_test-Prints B R easy 100000 p0 (omega arith) (omega arith) o in
          let p1 = (micro_task_test B 100000 p0).1 in
          let (e2, o2) =
            cpu_intensive_test-Prints B R easy (cpu_intensive_task 100000) 16 t p1 (omega arith)
              is_t (omega arith) o1 in
          let p2 = (cpu_intensive_test B 16 100000 p1).1 in
          let (e3, o3) =
            mixed_workload_test-Prints B R easy (cpu_intensive_task 50000) 8 50000 u p2
              (omega arith) (omega arith) is_u (omega arith) o2 in
          let p3 = (mixed_workload_test B 8 50000 50000 p2).1 in
          let s1 = stats-Owes rt p1 o1 in
          let s3 = stats-Owes rt p3 o3 in
          ap (λ r. r.0) (and_then-ends (micro_task_test B 100000 p0) _ _ e1)
          ∙ ap (λ r. r.0) (and_then-ends (cpu_intensive_test B 16 100000 p1) _ _ e2)
          ∙ ap (λ r. r.0) (and_then-ends (mixed_workload_test B 8 50000 50000 p2) _ _ e3)
          ∙ (λ i. ends (record {
            total = 9999900000;
            stats = s1 i;
            cpu_total = cpu i;
            mixed_total = mixed i;
            final_stats = s3 i;
          })))

    -- The test of the memory prints 2500000, if no steal of a single task loses a race and no other
    -- thread does anything, on a fuel of 10002.
    pub memory_pressure_test-alone :
        (available : Option ℕ) (p : Process X)
        → 10002 ≤ fuel
        → (memory_pressure_test X idle fuel available p).0 ≡ ends 2500000
    unfolding memory_pressure_test on_luminal-Reliable
    memory_pressure_test-alone available p enough = with_runtime-ends available p _ _ (λ rt p0 o.
        (memory_test-Prints (on_luminal X idle fuel rt) (on_luminal-Reliable X calm fuel rt)
          (λ v. refl) 10000 p0 (omega arith) (omega arith) o).0)

    run_threads-ends :
        (available : Option ℕ) (n r total : ℕ) (p : Process X)
        → 10002 ≤ fuel
        → n + r ≤ 100
        → total + threads_sum n r < 2 ^ 64
        → (run_threads X idle fuel available n r total p).0 ≡ ends (total + threads_sum n r)
    unfolding run_threads on_luminal-Reliable
    run_threads-ends available zero r total p enough few small = ap ends (omega arith)
    run_threads-ends available (suc n) r total p enough few small =
        let thread : (with_runtime X idle fuel (Runtime.new X available p)
              (λ rt. runtime_thread (on_luminal X idle fuel rt) r 10000)).0
            ≡ ends (r * 49995000) =
          with_runtime-ends available p _ _ (λ rt p0 o.
            (runtime_thread-Prints (on_luminal X idle fuel rt) (on_luminal-Reliable X calm fuel rt)
              (λ v. refl) r 10000 p0 (omega arith) (omega arith) (omega arith) o).0
            ∙ ap ends (omega arith)) in
        let exact : (total + r * 49995000) % 2 ^ 64 ≡ total + r * 49995000 =
          mod-eq_of_lt (omega arith) in
        ap (λ r. r.0) (and_then-ends _ _ _ thread)
        ∙ rw exact (
            run_threads-ends available n (r + 1) (total + r * 49995000) _ enough (omega arith)
              (omega arith)
            ∙ ap ends (omega arith))

    -- The test with several runtimes prints 299970000, if no steal of a single task loses a race and no
    -- other thread does anything while one waits, on a fuel of 10002.
    pub concurrent_runtime_test-alone :
        (available : Option ℕ) (p : Process X)
        → 10002 ≤ fuel
        → (concurrent_runtime_test X idle fuel available p).0 ≡ ends 299970000
    unfolding concurrent_runtime_test
    concurrent_runtime_test-alone available p enough =
        run_threads-ends available 4 0 0 p enough (omega arith) (omega arith)
