-- ===== src/Benchmarks/Comparison/Awaits.antt =====
-- The parts of the comparison of src/main.rs that await what they have spawned, on a runtime that can
-- be relied on.
use luminal.Prelude.{
  ℕ, ◌+◌, ◌*◌, ◌%◌, ◌^◌, ◌≡◌, ◌≤◌, refl, ap, List, [], ◌∷◌, ◌++◌, length, length-append, arith,
}
use luminal.Task.{Future, value}
use luminal.Worker.{Loop, ends}
use luminal.Workloads.{memory_task, fill, sum}
use luminal.Benchmarks.{Backend, and_then}
use luminal.Benchmarks.Totals.{
  Reliable, Spawned, firsts, results, and_then-ends, spawn_each-Spawned, Spawned-nothing,
  length-seconds, length-results,
}
use luminal.Benchmarks.Comparison.{await_each, await_tasks, await_two, compare_tests}

-- A part that ends with `a` where `Q` holds.
abbrev pub Ends : {W A : Type 0} → (W → Type 0) → A → Loop A × W → Type 0
Ends Q a r = (r.0 ≡ ends a) × Q r.1

pub and_then-Ends :
    {W A C : Type 0} (P Q : W → Type 0) (r : Loop A × W) (rest : A → W → Loop C × W) (a : A) (c : C)
    → Ends P a r
    → ((w : W) → P w → Ends Q c (rest a w))
    → Ends Q c (and_then r rest)
and_then-Ends P Q r rest a c (e, p) next = rw (and_then-ends r rest a e) (next r.1 p)

module _ {W : Type 0} (B : Backend W) {limit : ℕ} (R : Reliable B limit) where
  await_each-Ends :
      (l : List (B.Handle × ℕ)) (w : W)
      → length l ≤ limit
      → R.Owed l w
      → Ends (R.Owed []) tt (await_each B (firsts l) w)
  unfolding await_each
  await_each-Ends [] w le o = (refl, o)
  await_each-Ends ((h, v) ∷ l) w le o =
      and_then-Ends (R.Owed l) (R.Owed []) (B.wait h w) (λ _. await_each B (firsts l)) v tt
        (R.wait_owed h v l w (omega arith) o) (λ u o'. await_each-Ends l u (omega arith) o')

  await_each-Spawned :
      (handles : List B.Handle) (vs : List ℕ) (w : W)
      → length vs ≤ limit
      → Spawned B R handles vs w
      → Ends (R.Owed []) tt (await_each B handles w)
  await_each-Spawned handles vs w le s = rw s.of_handles (
      await_each-Ends s.owing w (omega (arith, ap length s.of_results, length-seconds B R s.owing))
        s.owed)

  pub await_tasks-Ends :
      (task : ℕ → Future ℕ) (f : ℕ → ℕ)
      → ((i : ℕ) → R.Accepts (f i) (task i))
      → (n : ℕ) (w : W) → n ≤ limit
      → R.Owed [] w
      → Ends (R.Owed []) tt (await_tasks B task n w)
  unfolding await_tasks
  await_tasks-Ends task f e n w le o =
      await_each-Spawned _ (results f n 0) _ (omega (arith, length-results B R f n 0))
        (spawn_each-Spawned B R task f e n 0 [] [] w (Spawned-nothing B R w o))

  await_two-Ends :
      (task task' : ℕ → Future ℕ) (f g : ℕ → ℕ)
      → ((i : ℕ) → R.Accepts (f i) (task i))
      → ((i : ℕ) → R.Accepts (g i) (task' i))
      → (n m : ℕ) (w : W) → n + m ≤ limit
      → R.Owed [] w
      → Ends (R.Owed []) tt (await_two B task n task' m w)
  unfolding await_two
  await_two-Ends task task' f g e e' n m w le o =
      let vs = results f n 0 in
      let us = results g m 0 in
      await_each-Spawned _ (vs ++ us) _
        (omega (arith, length-append vs us, length-results B R f n 0, length-results B R g m 0))
        (spawn_each-Spawned B R task' g e' m 0 _ vs _
          (spawn_each-Spawned B R task f e n 0 [] [] w (Spawned-nothing B R w o)))

  pub compare_tests-Ends :
      (micro cpu : ℕ → Future ℕ) (t u : ℕ) (w : W)
      → 100000 ≤ limit
      → ((v : ℕ) → R.Accepts v (value v))
      → ((i : ℕ) → R.Accepts (i * 2 % 2 ^ 64) (micro i))
      → R.Accepts t (cpu 100000)
      → R.Accepts u (cpu 50000)
      → R.Owed [] w
      → Ends (R.Owed []) tt (compare_tests B micro cpu w)
  unfolding compare_tests memory_task
  compare_tests-Ends micro cpu t u w enough easy is_micro is_t is_u o =
      let P = R.Owed [] in
      let memory = λ (i : ℕ). sum 0 (fill i 1000 0) % 1000 in
      and_then-Ends P P _ _ tt tt (await_tasks-Ends micro _ is_micro 100000 w enough o) (λ w1 o1.
        and_then-Ends P P _ _ tt tt
          (await_tasks-Ends (λ _. cpu 100000) (λ _. t) (λ i. is_t) 16 w1 (omega arith) o1)
          (λ w2 o2.
            and_then-Ends P P _ _ tt tt
              (await_two-Ends (λ _. cpu 50000) micro (λ _. u) _ (λ i. is_u) is_micro 8 50000 w2
                (omega arith) o2)
              (λ w3 o3.
                await_tasks-Ends memory_task memory (λ i. easy (memory i)) 10000 w3 (omega arith)
                  o3)))
