-- ===== src/Tests/Benchmarks.antt =====
-- The benchmarks on this runtime, and on a runtime in the place of tokio that runs a future when it is
-- awaited.
use luminal.Prelude.{ltb, ◌*◌, ℕ, ◌≡◌, refl, ap, some, none, [], ◌∷◌, All, All-append, arith}
use luminal.Crossbeam.Listed.{uncontended, take_front-ne}
use luminal.Crossbeam.{Crossbeam}
use luminal.World.{World}
use luminal.Task.{JoinHandle, Future, value, yields, spawns, joins, panics, Task}
use luminal.Task.Finite.{Gives}
use luminal.Worker.{ends}
use luminal.Executor.{spawn}
use luminal.Benchmarks.{Backend}
use luminal.Benchmarks.Totals.{Reliable}
use luminal.Benchmarks.Luminal.{
  high_throughput_benchmark, memory_pressure_test, concurrent_runtime_test,
}
use luminal.Benchmarks.Luminal.Runs.{
  high_throughput_benchmark-alone, memory_pressure_test-alone, concurrent_runtime_test-alone,
}
use luminal.Benchmarks.Tokio.{
  tokio_high_throughput_benchmark, tokio_memory_pressure_test, tokio_concurrent_runtime_test,
  tokio_high_throughput_benchmark-ends, tokio_memory_pressure_test-ends,
  tokio_concurrent_runtime_test-ends,
}
use luminal.Benchmarks.Comparison.{Timing, Elapsed}
use luminal.Benchmarks.Comparison.Winners.{Exact}
use luminal.Executor.Threads.{fresh}
use luminal.Runtime.{Process}

abbrev lists : Crossbeam (Task ℕ) ℕ
lists = uncontended (Task ℕ) ℕ

abbrev unused : World lists
unused = fresh lists 1 (record { boxes = 0; live = [] })

-- No executor was made yet.
abbrev empty : Process lists
empty = record {
  cells = λ e. record { strong = 0; world = unused; workers = [] };
  next_cell = 0;
  thread_runtime = none;
}

abbrev idle : ℕ → World lists → World lists
idle k w = w

high_throughput_benchmark-alone_example :
    (high_throughput_benchmark lists idle 100002 (some 2) empty).0
    ≡ ends (record {
      total = 9999900000;
      stats = (0, 0);
      cpu_total = 5333253333600000;
      mixed_total = 333325833350000;
      final_stats = (0, 0);
    })
high_throughput_benchmark-alone_example =
    high_throughput_benchmark-alone lists (λ q. take_front-ne q.entries) 100002 (some 2) empty
      (omega arith)

memory_pressure_test-alone_example :
    (memory_pressure_test lists idle 10002 (some 2) empty).0 ≡ ends 2500000
memory_pressure_test-alone_example =
    memory_pressure_test-alone lists (λ q. take_front-ne q.entries) 10002 (some 2) empty
      (omega arith)

concurrent_runtime_test-alone_example :
    (concurrent_runtime_test lists idle 10002 (some 2) empty).0 ≡ ends 299970000
concurrent_runtime_test-alone_example =
    concurrent_runtime_test-alone lists (λ q. take_front-ne q.entries) 10002 (some 2) empty
      (omega arith)

nowhere : JoinHandle
nowhere = record { id = record { raw = 0 }; receiver = 0 }

outcome : Future ℕ → ℕ
outcome (value v) = v
outcome (yields f) = outcome f
outcome (spawns f k) = outcome (k nowhere)
outcome (joins j k) = 0
outcome panics = 0

outcome-Gives : (v : ℕ) (f : Future ℕ) → Gives v f → outcome f ≡ v
unfolding outcome
outcome-Gives v (value u) g = g
outcome-Gives v (yields f) g = outcome-Gives v f g
outcome-Gives v (spawns f k) g = outcome-Gives v (k nowhere) (g nowhere)
outcome-Gives v (joins j k) g = absurd g
outcome-Gives v panics g = absurd g

abbrev lazy : Backend (Unit {0})
lazy = record { Handle = Future ℕ; spawn = λ f w. (f, w); wait = λ f w. (ends (outcome f), w) }

abbrev lazy-Reliable : Reliable lazy 100000
lazy-Reliable = record {
  Accepts = Gives;
  Owed = λ l w. All (λ (h : Future ℕ × ℕ). Gives h.1 h.0) l;
  spawn_owed = λ v f l w g o. All-append _ l ((f, v) ∷ []) o (g, tt);
  wait_owed = λ f v l w lt o. (ap ends (outcome-Gives v f o.0), o.1);
}

tokio_high_throughput_benchmark-ends_example :
    (tokio_high_throughput_benchmark lazy tt tt).0
    ≡ ends
        (record { total = 9999900000; cpu_total = 5333253333600000; mixed_total = 333325833350000 })
tokio_high_throughput_benchmark-ends_example =
    tokio_high_throughput_benchmark-ends lazy tt lazy-Reliable (λ v f g. g) tt (omega arith) tt

tokio_memory_pressure_test-ends_example : (tokio_memory_pressure_test lazy tt tt).0 ≡ ends 2500000
tokio_memory_pressure_test-ends_example =
    tokio_memory_pressure_test-ends lazy tt lazy-Reliable (λ v f g. g) tt (omega arith) tt

tokio_concurrent_runtime_test-ends_example : tokio_concurrent_runtime_test lazy tt ≡ ends 299970000
tokio_concurrent_runtime_test-ends_example =
    tokio_concurrent_runtime_test-ends lazy tt lazy-Reliable (λ v f g. g) (omega arith) tt

-- Fractions, and a clock that counts nanoseconds.
abbrev fractions : Timing
fractions = record {
  F64 = ℕ × ℕ;
  Duration = ℕ;
  as_f64 = λ n. (n, 1);
  div = λ a b. (a.0 * b.1, a.1 * b.0);
  greater = λ a b. ltb (b.0 * a.1) (a.0 * b.1);
  as_secs_f64 = λ d. (d, 1000000000);
  from_secs = λ n. n * 1000000000;
}

abbrev fractions-Exact : Exact fractions
fractions-Exact = record {
  num = λ a. a.0;
  den = λ a. a.1;
  nanos = λ d. d;
  num-as_f64 = λ n. refl;
  den-as_f64 = λ n. refl;
  num-div = λ a b. refl;
  den-div = λ a b. refl;
  greater_lem = λ a b. refl;
  num-as_secs_f64 = λ d. refl;
  den-as_secs_f64 = λ d. refl;
}

abbrev ours : Elapsed fractions
ours = record { micro = 10; cpu = 2; mixed = 3; memory = 4; concurrent = 5 }

abbrev theirs : Elapsed fractions
theirs = record { micro = 5; cpu = 4; mixed = 3; memory = 2; concurrent = 5 }
