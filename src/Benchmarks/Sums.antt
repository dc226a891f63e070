-- ===== src/Benchmarks/Sums.antt =====
-- The closed forms of the sums that the benchmarks of src/main.rs print.
use native.Mathlib.Nat.{mod-eq_of_lt, mul-le-mul_left, mul-le-mul_right}
use luminal.Prelude.{ℕ, zero, suc, ◌+◌, ◌*◌, ◌/◌, ◌%◌, ◌^◌, ◌≡◌, ◌≤◌, arith}
use luminal.Workloads.{fill, sum}
use luminal.Benchmarks.Totals.{results, plain_sum}

-- A constant, `n` times.
pub constant_sum : (t n i : ℕ) → plain_sum (results (λ _. t) n i) ≡ n * t
constant_sum t zero i = omega arith
constant_sum t (suc n) i = omega (arith, constant_sum t n (i + 1))

pub micro_sum :
    (n i : ℕ)
    → n + i ≤ 1000000
    → plain_sum (results (λ i. i * 2 % 2 ^ 64) n i) + n ≡ n * n + 2 * (i * n)
micro_sum zero i h = omega arith
micro_sum (suc n) i h = omega (arith, micro_sum n (i + 1) (omega arith))

pub product_le : (i r a b : ℕ) → i ≤ a → r ≤ b → i * r ≤ a * b
product_le i r a b h k = omega (arith, mul-le-mul_left i k, mul-le-mul_right b h)

pub product_sum :
    (r n i : ℕ)
    → n + i ≤ 1000000
    → r ≤ 1000000
    → 2 * plain_sum (results (λ i. i * r % 2 ^ 64) n i) + r * n ≡ r * (n * n) + 2 * (r * (i * n))
product_sum r zero i h k = omega arith
product_sum r (suc n) i h k =
    let small : i * r % 2 ^ 64 ≡ i * r =
      mod-eq_of_lt (omega (arith, product_le i r 1000000 1000000 (omega arith) k)) in
    omega (arith, small, product_sum r n (i + 1) (omega arith) k)

-- The sum in a task of the test of the memory, from `j` on.
sum-fill :
    (i n j acc : ℕ)
    → i ≤ 1000000
    → n + j ≤ 1000
    → acc ≤ j * 1000000000
    → 2 * sum acc (fill i n j) + i * n ≡ 2 * acc + i * (n * n) + 2 * (i * (j * n))
unfolding sum fill
sum-fill i zero j acc hi h b = omega arith
sum-fill i (suc n) j acc hi h b =
    let le = product_le i j 1000000 1000 hi (omega arith) in
    let small : i * j % 2 ^ 64 ≡ i * j = mod-eq_of_lt (omega arith) in
    let small' : (acc + i * j) % 2 ^ 64 ≡ acc + i * j = mod-eq_of_lt (omega arith) in
    rw (small, small')
      (omega (arith, sum-fill i n (j + 1) (acc + i * j) hi (omega arith) (omega arith)))

pub memory_result : (i : ℕ) → i ≤ 1000000 → sum 0 (fill i 1000 0) % 1000 ≡ 500 * (i % 2)
memory_result i h = omega (arith, sum-fill i 1000 0 0 h (omega arith) (omega arith))

pub memory_sum :
    (n i : ℕ)
    → n + i ≤ 1000000
    → plain_sum (results (λ i. sum 0 (fill i 1000 0) % 1000) n i) + 500 * (i / 2)
      ≡ 500 * ((n + i) / 2)
memory_sum zero i h = omega arith
memory_sum (suc n) i h =
    omega (arith, memory_result i (omega arith), memory_sum n (i + 1) (omega arith))
