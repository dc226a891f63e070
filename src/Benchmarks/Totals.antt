-- ===== src/Benchmarks/Totals.antt =====
-- The sums that the benchmarks of src/main.rs print.
use native.Mathlib.Nat.{mod-eq_of_lt}
use luminal.Prelude.{
  ℕ, zero, suc, ◌+◌, ◌%◌, ◌^◌, ◌≡◌, ◌≤◌, ◌<◌, ◌∙◌, refl, sym, ap, List, [], ◌∷◌, ◌++◌, length,
  length-append, arith,
}
use mathlib.Core.Path.{subst}
use mathlib.Core.List.{append_assoc, append-nil}
use luminal.Task.{Future}
use luminal.Worker.{Loop, ends, unwound, no_fuel}
use luminal.Benchmarks.{run_two, Backend, spawn_each, and_then, add_each, run_tasks}

-- Handles, and what is to come from them.
abbrev pub firsts {ℓ} : {A : Type ℓ} → List (A × ℕ) → List A
firsts [] = []
firsts ((a, v) ∷ l) = a ∷ firsts l

abbrev pub seconds {ℓ} : {A : Type ℓ} → List (A × ℕ) → List ℕ
seconds [] = []
seconds ((a, v) ∷ l) = v ∷ seconds l

firsts-snoc {ℓ} :
    {A : Type ℓ} (l : List (A × ℕ)) (a : A) (v : ℕ) → firsts (l ++ (a, v) ∷ []) ≡ firsts l ++ a ∷ []
firsts-snoc [] a v = refl
firsts-snoc ((b, u) ∷ l) a v = ap (λ r. b ∷ r) (firsts-snoc l a v)

seconds-snoc {ℓ} :
    {A : Type ℓ} (l : List (A × ℕ)) (a : A) (v : ℕ)
    → seconds (l ++ (a, v) ∷ []) ≡ seconds l ++ v ∷ []
seconds-snoc [] a v = refl
seconds-snoc ((b, u) ∷ l) a v = ap (λ r. u ∷ r) (seconds-snoc l a v)

-- The results of the tasks from `i` on.
abbrev pub results : (ℕ → ℕ) → ℕ → ℕ → List ℕ
results f zero i = []
results f (suc n) i = f i ∷ results f n (i + 1)

abbrev pub plain_sum : List ℕ → ℕ
plain_sum [] = 0
plain_sum (v ∷ l) = v + plain_sum l

pub plain_sum-append : (l r : List ℕ) → plain_sum (l ++ r) ≡ plain_sum l + plain_sum r
plain_sum-append [] r = omega arith
plain_sum-append (v ∷ l) r = omega (arith, plain_sum-append l r)

-- A runtime that keeps what it owes: up to `limit` handles at a time give the results of the futures
-- that they were made for, in order. `Accepts v f` says that `f` is a future whose result is `v`, of
-- the kind that this is known for.
pub record Reliable {W : Type 0} (B : Backend W) (limit : ℕ) : Type 1 where
  pub Accepts : ℕ → Future ℕ → Type 0
  pub Owed : List (B.Handle × ℕ) → W → Type 0
  pub spawn_owed :
      (v : ℕ) (f : Future ℕ) (l : List (B.Handle × ℕ)) (w : W)
      → Accepts v f
      → Owed l w
      → Owed (l ++ ((B.spawn f w).0, v) ∷ []) (B.spawn f w).1
  pub wait_owed :
      (h : B.Handle) (v : ℕ) (l : List (B.Handle × ℕ)) (w : W)
      → length l < limit
      → Owed ((h, v) ∷ l) w
      → ((B.wait h w).0 ≡ ends v) × Owed l (B.wait h w).1

pub and_then-ends :
    {W A C : Type 0} (r : Loop A × W) (rest : A → W → Loop C × W) (a : A)
    → r.0 ≡ ends a
    → and_then r rest ≡ rest a r.1
and_then-ends (ends b, w) rest a e = let same : b ≡ a = cc in ap (λ x. rest x w) same
and_then-ends (unwound, w) rest a e = cc
and_then-ends (no_fuel, w) rest a e = cc

module _ {W : Type 0} (B : Backend W) {limit : ℕ} (R : Reliable B limit) where
  -- After the loop that spawns.
  pub record Spawned (handles : List B.Handle) (vs : List ℕ) (w : W) : Type 0 where
    pub owing : List (B.Handle × ℕ)
    pub of_handles : handles ≡ firsts owing
    pub of_results : vs ≡ seconds owing
    pub owed : R.Owed owing w

  spawn_once :
      (handles : List B.Handle) (vs : List ℕ) (w : W) (g : Future ℕ) (v : ℕ)
      → R.Accepts v g
      → Spawned handles vs w
      → Spawned (handles ++ (B.spawn g w).0 ∷ []) (vs ++ v ∷ []) (B.spawn g w).1
  spawn_once handles vs w g v e s = record {
    owing = s.owing ++ ((B.spawn g w).0, v) ∷ [];
    of_handles = ap (λ l. l ++ (B.spawn g w).0 ∷ []) s.of_handles ∙ sym (firsts-snoc s.owing _ v);
    of_results = ap (λ l. l ++ v ∷ []) s.of_results ∙ sym (seconds-snoc s.owing _ v);
    owed = R.spawn_owed v g s.owing w e s.owed;
  }

  pub spawn_each-Spawned :
      (task : ℕ → Future ℕ) (f : ℕ → ℕ)
      → ((i : ℕ) → R.Accepts (f i) (task i))
      → (n i : ℕ) (handles : List B.Handle) (vs : List ℕ) (w : W) → Spawned handles vs w
      → Spawned
          (spawn_each B task n i handles w).0
          (vs ++ results f n i)
          (spawn_each B task n i handles w).1
  unfolding spawn_each
  spawn_each-Spawned task f e zero i handles vs w s =
      subst (λ r. Spawned handles r w) (sym (append-nil vs)) s
  spawn_each-Spawned task f e (suc n) i handles vs w s =
      subst
        (λ r.
          Spawned
            (spawn_each B task n (i + 1) (handles ++ (B.spawn (task i) w).0 ∷ [])
              (B.spawn (task i) w).1).0
            r
            (spawn_each B task n (i + 1) (handles ++ (B.spawn (task i) w).0 ∷ [])
              (B.spawn (task i) w).1).1)
        (append_assoc vs (f i ∷ []) (results f n (i + 1)))
        (spawn_each-Spawned task f e n (i + 1) _ _ _
          (spawn_once handles vs w (task i) (f i) (e i) s))

  -- The sum is exact, as long as it is below 2^64.
  pub add_each-ends :
      (l : List (B.Handle × ℕ)) (total : ℕ) (w : W)
      → length l ≤ limit
      → total + plain_sum (seconds l) < 2 ^ 64
      → R.Owed l w
      → ((add_each B total (firsts l) w).0 ≡ ends (total + plain_sum (seconds l)))
        × R.Owed [] (add_each B total (firsts l) w).1
  unfolding add_each
  add_each-ends [] total w le small o = (ap ends (omega arith), o)
  add_each-ends ((h, v) ∷ l) total w le small o =
      let (e, o') = R.wait_owed h v l w (omega arith) o in
      let exact : (total + v) % 2 ^ 64 ≡ total + v = mod-eq_of_lt (omega arith) in
      let (t, left) = add_each-ends l (total + v) (B.wait h w).1 (omega arith) (omega arith) o' in
      rw (and_then-ends (B.wait h w) (λ u. add_each B ((total + u) % 2 ^ 64) (firsts l)) v e, exact)
        (t ∙ ap ends (omega arith), left)

  pub Spawned-nothing : (w : W) → R.Owed [] w → Spawned [] [] w
  Spawned-nothing w o = record { owing = []; of_handles = refl; of_results = refl; owed = o }

  pub length-seconds : {A : Type 0} (l : List (A × ℕ)) → length (seconds l) ≡ length l
  length-seconds [] = refl
  length-seconds ((a, v) ∷ l) = omega (arith, length-seconds l)

  pub length-results : (f : ℕ → ℕ) (n i : ℕ) → length (results f n i) ≡ n
  length-results f zero i = refl
  length-results f (suc n) i = omega (arith, length-results f n (i + 1))

  -- After the loops that spawn, the loop that adds gives the sum of all results.
  add_each-Spawned :
      (handles : List B.Handle) (vs : List ℕ) (w : W)
      → length vs ≤ limit
      → plain_sum vs < 2 ^ 64
      → Spawned handles vs w
      → ((add_each B 0 handles w).0 ≡ ends (plain_sum vs)) × R.Owed [] (add_each B 0 handles w).1
  add_each-Spawned handles vs w le small s =
      let (e, o) =
        add_each-ends s.owing 0 w (omega (arith, ap length s.of_results, length-seconds s.owing))
          (omega (arith, ap plain_sum s.of_results)) s.owed in
      rw (s.of_handles, s.of_results) (e ∙ ap ends (omega arith), o)

  -- A test gives the sum of what its tasks give.
  pub run_tasks-ends :
      (task : ℕ → Future ℕ) (f : ℕ → ℕ)
      → ((i : ℕ) → R.Accepts (f i) (task i))
      → (n : ℕ) (w : W) → n ≤ limit
      → plain_sum (results f n 0) < 2 ^ 64
      → R.Owed [] w
      → ((run_tasks B task n w).0 ≡ ends (plain_sum (results f n 0)))
        × R.Owed [] (run_tasks B task n w).1
  unfolding run_tasks
  run_tasks-ends task f e n w le small o =
      add_each-Spawned _ (results f n 0) _ (omega (arith, length-results f n 0)) small
        (spawn_each-Spawned task f e n 0 [] [] w (Spawned-nothing w o))

  pub run_two-ends :
      (task task' : ℕ → Future ℕ) (f g : ℕ → ℕ)
      → ((i : ℕ) → R.Accepts (f i) (task i))
      → ((i : ℕ) → R.Accepts (g i) (task' i))
      → (n m : ℕ) (w : W) → n + m ≤ limit
      → plain_sum (results f n 0) + plain_sum (results g m 0) < 2 ^ 64
      → R.Owed [] w
      → ((run_two B task n task' m w).0
          ≡ ends (plain_sum (results f n 0) + plain_sum (results g m 0)))
        × R.Owed [] (run_two B task n task' m w).1
  unfolding run_two
  run_two-ends task task' f g e e' n m w le small o =
      let vs = results f n 0 in
      let us = results g m 0 in
      let (done, left) =
        add_each-Spawned _ (vs ++ us) _
          (omega (arith, length-append vs us, length-results f n 0, length-results g m 0))
          (omega (arith, plain_sum-append vs us))
          (spawn_each-Spawned task' g e' m 0 _ vs _
            (spawn_each-Spawned task f e n 0 [] [] w (Spawned-nothing w o))) in
      (done ∙ ap ends (plain_sum-append vs us), left)
