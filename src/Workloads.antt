-- ===== src/Workloads.antt =====
-- src/main.rs: the CPU-bound task of the benchmarks, as a future that the runtime polls.
use native.Mathlib.Nat.{mul-le-mul_left, mul-le-mul_right, mod-eq_of_lt}
use luminal.Prelude.{
  ℕ, zero, suc, List, [], ◌∷◌, ◌+◌, ◌*◌, ◌%◌, ◌^◌, ◌≤◌, ◌≡◌, ◌∙◌, ◌==◌, ap, refl, sym,
  if◌then◌else◌, arith, if_both,
}
use luminal.Task.{Future, value, yields, panics}
use luminal.Task.Finite.{Gives}
use luminal.Task.Poll.{ready, returned, Host, poll_future}

-- `std::future::ready(()).await` is ready at its first poll, and does not give way.
abbrev pub await_ready : {V : Type 0} → Future V → Future V
await_ready rest = rest

-- The loop `for i in 0..iterations`, from `i` on: `n` rounds are left. The sum has 64 bits.
unfoldable pub sum_squares : ℕ → ℕ → ℕ → Future ℕ
sum_squares zero i sum = value sum
sum_squares (suc n) i sum =
    let rest = sum_squares n (i + 1) ((sum + i * i) % 2 ^ 64) in
    if i % 1000 == 0 then await_ready rest else rest

unfoldable pub cpu_intensive_task : ℕ → Future ℕ
cpu_intensive_task iterations = sum_squares iterations 0 0

-- The tasks for tokio. `tokio::task::yield_now().await` gives way once.
unfoldable pub tokio_sum_squares : ℕ → ℕ → ℕ → Future ℕ
tokio_sum_squares zero i sum = value sum
tokio_sum_squares (suc n) i sum =
    let rest = tokio_sum_squares n (i + 1) ((sum + i * i) % 2 ^ 64) in
    if i % 100 == 0 then yields rest else rest

unfoldable pub tokio_cpu_intensive_task : ℕ → Future ℕ
tokio_cpu_intensive_task iterations = tokio_sum_squares iterations 0 0

unfoldable pub tokio_micro_task : ℕ → Future ℕ
tokio_micro_task id = value (id * 2 % 2 ^ 64)

unfoldable pub micro_task : ℕ → Future ℕ
micro_task id = value (id * 2 % 2 ^ 64)

-- The tasks of the test with several runtimes, and of the test of the memory. The counter that the
-- former share is left out.
unfoldable pub product_task : ℕ → ℕ → Future ℕ
product_task runtime_id task_id = value (task_id * runtime_id % 2 ^ 64)

-- The loop `for j in 0..1000 { data.push(i * j) }`, from `j` on: `n` rounds are left.
unfoldable pub fill : ℕ → ℕ → ℕ → List ℕ
fill i zero j = []
fill i (suc n) j = i * j % 2 ^ 64 ∷ fill i n (j + 1)

-- `data.iter().sum()`
unfoldable pub sum : ℕ → List ℕ → ℕ
sum acc [] = acc
sum acc (x ∷ xs) = sum ((acc + x) % 2 ^ 64) xs

unfoldable pub memory_task : ℕ → Future ℕ
memory_task i = value (sum 0 (fill i 1000 0) % 1000)

-- The closed form of 0² + 1² + … + (i - 1)².
abbrev pub IsSum : ℕ → ℕ → Type 0
IsSum i s = 6 * s + 3 * (i * i) ≡ 2 * (i * i * i) + i

next_square : (i s : ℕ) → IsSum i s → IsSum (i + 1) (s + i * i)
next_square i s h = omega (arith, h)

square_le : (i : ℕ) → i ≤ 2000000 → i * i ≤ 4000000000000
square_le i h = omega (arith, mul-le-mul_left i h, mul-le-mul_right 2000000 h)

sum_squares_lem :
    (n i s : ℕ)
    → i + n ≤ 2000000
    → IsSum i s
    → s ≤ i * 4000000000000
    → (t : ℕ) × IsSum (i + n) t × (sum_squares n i s ≡ value t)
unfolding sum_squares
sum_squares_lem zero i s h e b = (s, omega (arith, e), refl)
sum_squares_lem (suc n) i s h e b =
    let small : (s + i * i) % 2 ^ 64 ≡ s + i * i =
      mod-eq_of_lt (omega (arith, square_le i (omega arith))) in
    let (t, e', q) =
      sum_squares_lem n (i + 1) (s + i * i) (omega arith) (next_square i s e)
        (omega (arith, square_le i (omega arith))) in
    (
      t,
      omega (arith, e'),
      if_both (λ f. f ≡ value t) (i % 1000 == 0) _ _ (ap (sum_squares n (i + 1)) small ∙ q)
          (ap (sum_squares n (i + 1)) small ∙ q),
    )

-- The task is a value already.
pub cpu_intensive_task-value :
    (iterations : ℕ)
    → iterations ≤ 2000000
    → (t : ℕ) × (IsSum iterations t) × (cpu_intensive_task iterations ≡ value t)
unfolding cpu_intensive_task
cpu_intensive_task-value iterations b =
    let (t, e, q) = sum_squares_lem iterations 0 0 (omega arith) refl (omega arith) in
    (t, omega (arith, e), q)

tokio_sum_squares-Gives :
    (t n i s : ℕ) → sum_squares n i s ≡ value t → Gives t (tokio_sum_squares n i s)
unfolding sum_squares tokio_sum_squares
tokio_sum_squares-Gives t zero i s e = cc
tokio_sum_squares-Gives t (suc n) i s e =
    let rest : sum_squares n (i + 1) ((s + i * i) % 2 ^ 64) ≡ value t =
      sym (
        if_both (λ f. f ≡ sum_squares n (i + 1) ((s + i * i) % 2 ^ 64)) (i % 1000 == 0) _ _ refl
          refl)
      ∙ e in
    let g = tokio_sum_squares-Gives t n (i + 1) ((s + i * i) % 2 ^ 64) rest in
    if_both (Gives t) (i % 100 == 0) _ _ g g

-- The CPU-bound task for tokio gives what the other one gives.
pub tokio_cpu_intensive_task-Gives :
    (t iterations : ℕ)
    → cpu_intensive_task iterations ≡ value t
    → Gives t (tokio_cpu_intensive_task iterations)
unfolding cpu_intensive_task tokio_cpu_intensive_task
tokio_cpu_intensive_task-Gives t iterations e = tokio_sum_squares-Gives t iterations 0 0 e

-- One poll on any runtime brings the CPU-bound task to its end and asks nothing of the runtime, for
-- up to 2000000 iterations: its awaits never give way. Its result `t` is the sum of the squares
-- below `iterations`, in closed form: `6 t + 3 n² = 2 n³ + n`.
pub cpu_intensive_task-once :
    {W : Type 0} (h : Host ℕ W) (iterations : ℕ) (w : W)
    → iterations ≤ 2000000
    → (t : ℕ) × (6 * t + 3 * (iterations * iterations)
        ≡ 2 * (iterations * iterations * iterations) + iterations)
      × (poll_future h (cpu_intensive_task iterations) w ≡ (returned (ready t), panics, w))
unfolding cpu_intensive_task poll_future
cpu_intensive_task-once h iterations w b =
    let (t, e, q) = cpu_intensive_task-value iterations b in (t, e, ap (λ f. poll_future h f w) q)
