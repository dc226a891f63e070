-- ===== src/Benchmarks/Comparison/Verdicts.antt =====
-- The comparison of src/main.rs comes to its verdicts, while the workers do nothing.
use luminal.Prelude.{ℕ, ◌≢◌}
use luminal.Crossbeam.{Crossbeam, Steal}
use luminal.Task.{Task}
use luminal.Runtime
use luminal.Benchmarks.Comparison.{Timing}

module _ (X : Crossbeam (Task ℕ) ℕ) (calm : (q : X.Injector) → (X.steal q).0 ≢ Steal.retry)
    (fuel : ℕ) (T : Timing) where
  abbrev Done : {W : Type 0} → W → Type 0
  Done w = Unit
