-- ===== src/Benchmarks/Comparison/Winners.antt =====
-- The winners in the comparison of src/main.rs, in exact arithmetic.
use mathlib.Core.Bool.{not}
use luminal.Prelude.{
  ap, Bool, true, false, ltb, lt→ltb, le→ltb, dec_lt, ◌<◌, sym, ◌∙◌, if◌then◌else◌, List, [], ◌∷◌,
  ◌*◌, ℕ, ◌≡◌, ◌≤◌, refl, arith,
}
use luminal.Benchmarks.Comparison.{
  Timing, Verdict, Section, luminal_faster, tokio_faster, Elapsed, benchmark_results,
  print_performance_comparison,
}

-- Exact arithmetic: a number has a numerator and a denominator, and a time is in nanoseconds.
pub record Exact (T : Timing) : Type 0 where
  pub num : T.F64 → ℕ
  pub den : T.F64 → ℕ
  pub nanos : T.Duration → ℕ
  pub num-as_f64 : (n : ℕ) → num (T.as_f64 n) ≡ n
  pub den-as_f64 : (n : ℕ) → den (T.as_f64 n) ≡ 1
  pub num-div : (a b : T.F64) → num (T.div a b) ≡ num a * den b
  pub den-div : (a b : T.F64) → den (T.div a b) ≡ den a * num b
  pub greater_lem : (a b : T.F64) → T.greater a b ≡ ltb (num b * den a) (num a * den b)
  pub num-as_secs_f64 : (d : T.Duration) → num (T.as_secs_f64 d) ≡ nanos d
  pub den-as_secs_f64 : (d : T.Duration) → den (T.as_secs_f64 d) ≡ 1000000000

ltb_same : (a b c d : ℕ) → (a < b → c < d) → (b ≤ a → d ≤ c) → ltb a b ≡ ltb c d
ltb_same a b c d f g = elim (dec_lt a b) [
  | yes lt ↦ lt→ltb a b lt ∙ sym (lt→ltb c d (f lt))
  | no ge ↦ le→ltb a b (omega arith) ∙ sym (le→ltb c d (g (omega arith)))
]

module _ (T : Timing) where
  -- Whether a verdict is in favour of this runtime.
  abbrev pub ours_won : Verdict T → Bool
  ours_won (luminal_faster r) = true
  ours_won (tokio_faster r) = false

  -- The times that are printed, with the winner.
  abbrev pub winners : List (Section T) → List (T.Duration × T.Duration × Bool)
  winners [] = []
  winners (x ∷ xs) = (x.luminal_duration, x.tokio_duration, ours_won x.verdict) ∷ winners xs

  module _ (E : Exact T) where
    -- The ratio of two throughputs, of the same number of tasks, and of two times.
    throughputs_greater100000 :
        (a b : T.Duration)
        → T.greater
            (T.div
              (T.div (T.as_f64 100000) (T.as_secs_f64 a))
              (T.div (T.as_f64 100000) (T.as_secs_f64 b)))
            (T.as_f64 1)
          ≡ ltb (E.nanos a) (E.nanos b)
    throughputs_greater100000 a b =
        E.greater_lem _ _
        ∙ simp
            (E.num-div, E.den-div, E.num-as_f64, E.den-as_f64, E.num-as_secs_f64, E.den-as_secs_f64)
            (ltb_same _ _ _ _ (λ h. omega (arith, h)) (λ h. omega (arith, h)))

    throughputs_greater40000 :
        (a b : T.Duration)
        → T.greater
            (T.div
              (T.div (T.as_f64 40000) (T.as_secs_f64 a))
              (T.div (T.as_f64 40000) (T.as_secs_f64 b)))
            (T.as_f64 1)
          ≡ ltb (E.nanos a) (E.nanos b)
    throughputs_greater40000 a b =
        E.greater_lem _ _
        ∙ simp
            (E.num-div, E.den-div, E.num-as_f64, E.den-as_f64, E.num-as_secs_f64, E.den-as_secs_f64)
            (ltb_same _ _ _ _ (λ h. omega (arith, h)) (λ h. omega (arith, h)))

    times_greater :
        (a b : T.Duration)
        → T.greater (T.div (T.as_secs_f64 a) (T.as_secs_f64 b)) (T.as_f64 1)
          ≡ ltb (E.nanos b) (E.nanos a)
    times_greater a b =
        E.greater_lem _ _
        ∙ simp
            (E.num-div, E.den-div, E.num-as_f64, E.den-as_f64, E.num-as_secs_f64, E.den-as_secs_f64)
            (ltb_same _ _ _ _ (λ h. omega (arith, h)) (λ h. omega (arith, h)))

    throughput_won :
        (b : Bool) (r r' : T.F64)
        → ours_won (if b then tokio_faster r else luminal_faster r') ≡ not b
    throughput_won true r r' = refl
    throughput_won false r r' = refl

    duration_won :
        (b : Bool) (r r' : T.F64) → ours_won (if b then luminal_faster r else tokio_faster r') ≡ b
    duration_won true r r' = refl
    duration_won false r r' = refl

    -- The runtime with the shorter time wins; this runtime wins a draw on throughput.
    abbrev pub fair : Elapsed T → Elapsed T → List (T.Duration × T.Duration × Bool)
    fair ours theirs =
        (ours.micro, theirs.micro, not (ltb (E.nanos theirs.micro) (E.nanos ours.micro)))
        ∷ (ours.cpu, theirs.cpu, ltb (E.nanos ours.cpu) (E.nanos theirs.cpu))
        ∷ (ours.mixed, theirs.mixed, ltb (E.nanos ours.mixed) (E.nanos theirs.mixed))
        ∷ (ours.memory, theirs.memory, ltb (E.nanos ours.memory) (E.nanos theirs.memory))
        ∷ (
          ours.concurrent,
          theirs.concurrent,
          not (ltb (E.nanos theirs.concurrent) (E.nanos ours.concurrent)),
        )
        ∷ []

    pub winners-fair :
        (ours theirs : Elapsed T)
        → winners
            (print_performance_comparison T (benchmark_results T ours) (benchmark_results T theirs))
          ≡ fair ours theirs
    unfolding print_performance_comparison benchmark_results
    winners-fair ours theirs =
        let e1 =
          throughput_won _ _ _ ∙ ap not (throughputs_greater100000 theirs.micro ours.micro) in
        let e2 = duration_won _ _ _ ∙ times_greater theirs.cpu ours.cpu in
        let e3 = duration_won _ _ _ ∙ times_greater theirs.mixed ours.mixed in
        let e4 = duration_won _ _ _ ∙ times_greater theirs.memory ours.memory in
        let e5 =
          throughput_won _ _ _
          ∙ ap not (throughputs_greater40000 theirs.concurrent ours.concurrent) in
        λ i.
          (ours.micro, theirs.micro, e1 i)
          ∷ (ours.cpu, theirs.cpu, e2 i)
          ∷ (ours.mixed, theirs.mixed, e3 i)
          ∷ (ours.memory, theirs.memory, e4 i)
          ∷ (ours.concurrent, theirs.concurrent, e5 i)
          ∷ []
