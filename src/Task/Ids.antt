-- ===== src/Task/Ids.antt =====
-- Ids drawn from the counter of `TaskId::new` (src/runtime/task.rs).
use luminal.Prelude.{ℕ, zero, suc, ◌+◌, ◌%◌, ◌^◌, ◌<◌, ◌≡◌, ◌≢◌, arith}
use luminal.Task.{new_id, get}

-- The counter after a number of calls of `TaskId::new`.
pub drawn : ℕ → ℕ → ℕ
drawn zero s = s
drawn (suc n) s = (new_id (drawn n s)).1

drawn-mod : (n s : ℕ) → s < 2 ^ 64 → drawn n s ≡ (s + n) % 2 ^ 64
unfolding drawn new_id
drawn-mod zero s h = omega arith
drawn-mod (suc n) s h = omega (arith, drawn-mod n s h)

-- Two calls of `TaskId::new` give different ids if at most 2^64 - 2 calls lie between them, whatever
-- value below 2^64 the counter started from.
pub get-new_id_ne :
    (s i j : ℕ)
    → s < 2 ^ 64
    → i < j
    → j < i + 2 ^ 64
    → get (new_id (drawn i s)).0 ≢ get (new_id (drawn j s)).0
unfolding get new_id
get-new_id_ne s i j hs lt near = omega (arith, drawn-mod i s hs, drawn-mod j s hs)
