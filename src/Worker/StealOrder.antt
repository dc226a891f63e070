-- ===== src/Worker/StealOrder.antt =====
-- Which deques a worker tries: only those of the workers that were started before it.
use native.Mathlib.Nat.{add-zero, mod-eq_of_lt, mod-suc, add-mod_right}
use mathlib.Core.Path.{ap₂, fun_ext}
use mathlib.Core.List.{map}
use native.Mathlib.Numerals.{add-one}
use luminal.Prelude.{
  ℕ, zero, suc, ◌+◌, ◌%◌, ◌<◌, ◌≤◌, ◌≡◌, ◌∙◌, refl, ap, Bool, false, List, [], ◌∷◌, ◌++◌, Option,
  some, length, length-append, arith, All,
}
use luminal.Crossbeam.{Crossbeam}
use luminal.Task.{Task}
use luminal.Task.Poll.{Outcome, returned}
use luminal.Waker.{Heap}
use luminal.World.{World}
use luminal.Worker.{WorkerThread, get_elem?, or_else, steal_from, scan_round, scan}
use luminal.Worker.Wiring.{IsWired}
use luminal.Executor.Threads.{num_workers, start_workers, new}

-- 0, 1, …, n - 1
abbrev pub range : ℕ → List ℕ
range zero = []
range (suc n) = range n ++ n ∷ []

pub length-range : (n : ℕ) → length (range n) ≡ n
length-range zero = refl
length-range (suc n) = omega (arith, length-append (range n) (n ∷ []), length-range n)

get_elem?-append_left : (l r : List ℕ) (i : ℕ) → i < length l → get_elem? (l ++ r) i ≡ get_elem? l i
get_elem?-append_left [] r i h = absurd (omega arith)
get_elem?-append_left (x ∷ l) r zero h = refl
get_elem?-append_left (x ∷ l) r (suc i) h = get_elem?-append_left l r i (omega arith)

get_elem?-append_length : (l : List ℕ) (x : ℕ) → get_elem? (l ++ x ∷ []) (length l) ≡ some x
get_elem?-append_length [] x = refl
get_elem?-append_length (y ∷ l) x = get_elem?-append_length l x

pub get_elem?-range : (n i : ℕ) → i < n → get_elem? (range n) i ≡ some i
get_elem?-range zero i h = absurd (omega arith)
get_elem?-range (suc n) i h = ground (
  arith,
  length-range n,
  get_elem?-append_left (range n) (n ∷ []) i,
  get_elem?-append_length (range n) n,
  get_elem?-range n i,
)

-- The `i`-th worker of an executor.
abbrev pub started : ℕ → WorkerThread
started i = record { id = i; worker = i; stealers = range (suc i) }

-- The steal loop looks at the worker's own place first, and then at each earlier one.
place_first : (i : ℕ) → (i % suc i + 0) % suc i ≡ i
place_first i = rw (mod-suc i) (ap (λ t. t % suc i) (add-zero i) ∙ mod-suc i)

place_next : (i k : ℕ) → k < i → (i % suc i + suc k) % suc i ≡ k
place_next i k h =
    rw (mod-suc i)
      (ap (λ t. t % suc i) (omega arith) ∙ add-mod_right k (suc i) ∙ mod-eq_of_lt (omega arith))

-- k, k + 1, …, k + n - 1
abbrev pub span : ℕ → ℕ → List ℕ
span k zero = []
span k (suc n) = k ∷ span (suc k) n

lt_of_get_elem? : (l : List ℕ) (i v : ℕ) → get_elem? l i ≡ some v → i < length l
lt_of_get_elem? [] i v e = cc
lt_of_get_elem? (x ∷ l) zero v e = omega arith
lt_of_get_elem? (x ∷ l) (suc i) v e = omega (arith, lt_of_get_elem? l i v e)

range_entry : (n i v : ℕ) → get_elem? (range n) i ≡ some v → (i < n) × (v ≡ i)
range_entry n i v e =
    ground (arith, length-range n, lt_of_get_elem? (range n) i v e, get_elem?-range n i)

pub started-IsWired : (n i : ℕ) → i < n → IsWired n (started i)
started-IsWired n i lt = record {
  home = lt;
  enrolled = omega (arith, length-range (suc i));
  own = get_elem?-range (suc i) i (omega arith);
  victims = λ idx v e.
      let (near, same) = range_entry (suc i) idx v e in
      (omega arith, λ apart own. apart (omega arith));
}

module _ {V : Type 0} (X : Crossbeam (Task V) V) where
  -- Deques tried in a row for the deque `d`, until one yields a task.
  abbrev pub try_all : List ℕ → ℕ → World X → Outcome Bool × World X
  try_all [] d w = (returned false, w)
  try_all (v ∷ vs) d w = or_else X (steal_from X v d w) (try_all vs d)

  -- The rounds of the worker `i`, by the place that is looked at.
  scan_round_first :
      (i : ℕ) (rest : World X → Outcome Bool × World X) (w : World X)
      → scan_round X (started i) 0 rest w ≡ rest w
  scan_round_first i rest w = rw (scan_round, length-range (suc i), place_first i) (ground arith)

  scan_round_next :
      (i k : ℕ) (rest : World X → Outcome Bool × World X) (w : World X)
      → k < i
      → scan_round X (started i) (suc k) rest w ≡ or_else X (steal_from X k i w) rest
  scan_round_next i k rest w h =
      rw
        (
          scan_round,
          length-range (suc i),
          place_next i k h,
          get_elem?-range (suc i) k (omega arith),
        )
        (ground arith)

  scan-later :
      (i n k j : ℕ)
      → k + n ≡ i
      → j ≡ suc k
      → (w : World X) → scan X (started i) n j w ≡ try_all (span k n) i w
  unfolding scan
  scan-later i zero k j h e w = refl
  scan-later i (suc n) k j h e w =
      ap (λ c. scan_round X (started i) c (scan X (started i) n (j + 1)) w) e
      ∙ scan_round_next i k (scan X (started i) n (j + 1)) w (omega arith)
      ∙ ap (or_else X (steal_from X k i w))
          (fun_ext (scan-later i n (suc k) (j + 1) (omega arith) (omega arith)))

  pub scan-started :
      (i : ℕ) (w : World X)
      → scan X (started i) (length (range (suc i))) 0 w ≡ try_all (span 0 i) i w
  unfolding scan
  scan-started i w =
      ap (λ n. scan X (started i) n 0 w) (length-range (suc i))
      ∙ scan_round_first i (scan X (started i) i (0 + 1)) w
      ∙ scan-later i i 0 1 (omega arith) (omega arith) w

  start_workers-started :
      (n i : ℕ) (stealers : List ℕ) (w : World X)
      → stealers ≡ range i
      → (start_workers X n i stealers w).0 ≡ map started (span i n)
  unfolding start_workers
  start_workers-started zero i stealers w e = refl
  start_workers-started (suc n) i stealers w e =
      let next : stealers ++ i ∷ [] ≡ range (i + 1) = rw (e, add-one) in
      let rest = start_workers-started n (i + 1) (stealers ++ i ∷ []) _ next in
      ap₂ ◌∷◌ (rw e) (rest ∙ ap (λ j. map started (span j n)) (add-one i))

  new-started :
      (available : Option ℕ) (next_id : ℕ) (h : Heap)
      → (new X available next_id h).0 ≡ map started (span 0 (num_workers available))
  unfolding new
  new-started available next_id h = start_workers-started (num_workers available) 0 [] _ refl

  All-span {κ} :
      (P : WorkerThread → Type κ) (k n m : ℕ)
      → ((i : ℕ) → i < m → P (started i))
      → k + n ≤ m
      → All P (map started (span k n))
  All-span P k zero m h le = tt
  All-span P k (suc n) m h le = (h k (omega arith), All-span P (suc k) n m h (omega arith))

  -- The steal loop of a worker that `ExecutorInner::new` starts tries the deques 0, 1, …, id - 1, in
  -- this order, and no other: those of the workers that were started before it.
  pub scan-new :
      (available : Option ℕ) (next_id : ℕ) (h : Heap)
      → All
          (λ me.
            (w : World X) → scan X me (length me.stealers) 0 w ≡ try_all (span 0 me.id) me.worker w)
          (new X available next_id h).0
  scan-new available next_id h = rw (new-started available next_id h) (
      All-span _ 0 (num_workers available) (num_workers available) (λ i _. scan-started i)
        (omega arith))

  -- Each worker that `ExecutorInner::new` starts has a deque of the executor, its own stealer at the
  -- place of its id, and only stealers of the executor's deques, of which no other is its own.
  pub new-IsWired :
      (available : Option ℕ) (next_id : ℕ) (h : Heap)
      → All (IsWired (num_workers available)) (new X available next_id h).0
  new-IsWired available next_id h = rw (new-started available next_id h) (
      All-span _ 0 (num_workers available) (num_workers available)
        (started-IsWired (num_workers available)) (omega arith))
