-- ===== src/Tests/Simple.antt =====
-- The simple executor, with room for its tasks and without.
use luminal.Prelude.{ℕ, zero, suc, ◌≡◌, ◌≢◌, refl, List, [], ◌∷◌, All, length, arith}
use luminal.Heapless.{Heapless}
use luminal.Heapless.Listed.{bounded}
use luminal.Task.{Future, value, yields, spawns, Task, new_task, wrapped}
use luminal.Worker.{ends}
use luminal.Simple.{SimpleExecutor, new, block_on}
use luminal.Simple.Overflow.{block_on-full}
use luminal.Task.Senders.{Foreign}
use luminal.Simple.Liveness.{block_on-ends}

abbrev lists : Heapless (Task ℕ) ℕ 1024 16
lists = bounded (Task ℕ) ℕ 1024 16

abbrev waiting : Task ℕ
waiting = new_task (record { raw = 1 }) (wrapped 0 (yields (value 1)))

abbrev copies : ℕ → List (Task ℕ)
copies zero = []
copies (suc n) = waiting ∷ copies n

length-copies : (n : ℕ) → length (copies n) ≡ n
length-copies zero = refl
length-copies (suc n) = omega (arith, length-copies n)

copies-Foreign : (n : ℕ) → All (λ t. Foreign 1 t.future) (copies n)
copies-Foreign zero = tt
copies-Foreign (suc n) = (λ same. absurd (omega arith), copies-Foreign n)

-- The executor with tasks that send to the result queue 0.
abbrev holding : ℕ → SimpleExecutor lists
holding n = record (new lists (record { boxes = 0; live = [] })) {
  global_queue = copies n;
  next_result = 1;
}

block_on-full_example : (block_on lists 20 (value 5) (holding 1024)).0 ≢ ends 5
unfolding new
block_on-full_example =
    block_on-full lists 20 (value 5) (holding 1024) (omega (arith, length-copies 1024))
      (copies-Foreign 1024) 5

-- The future spawns another one, waits once, and gives its result; one task is queued before.
abbrev parent : Future ℕ
parent = spawns (yields (value 8)) (λ j. yields (value 9))

block_on-ends_example : (block_on lists 7 parent (holding 1)).0 ≡ ends 9
block_on-ends_example =
    block_on-ends lists 7 4 1 2 0 parent 9 (holding 1)
      (
        2,
        0,
        2,
        0,
        omega arith,
        omega arith,
        (1, omega arith, omega arith),
        λ j. (1, omega arith, omega arith),
      )
      (λ j. refl) (2, 0, 0, 0, omega arith, omega arith, (1, omega arith, omega arith), tt)
      (omega arith) (copies-Foreign 1) (omega arith)
