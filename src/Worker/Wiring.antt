-- ===== src/Worker/Wiring.antt =====
-- What the deques and stealers of a worker must be like: `ExecutorInner::new` hands them out.
use native.Mathlib.Nat.{mod-lt}
use luminal.Prelude.{
  ℕ, zero, suc, ◌+◌, ◌%◌, ◌<◌, ◌≡◌, ◌≢◌, refl, List, [], ◌∷◌, some, length, arith,
}
use luminal.Worker.{WorkerThread, get_elem?}

-- One of `n` workers: its own deque and those behind its stealers exist, its id is the place of
-- its own stealer, and no other stealer is its own.
pub record IsWired (n : ℕ) (me : WorkerThread) : Type 0 where
  pub home : me.worker < n
  pub enrolled : me.id < length me.stealers
  pub own : get_elem? me.stealers me.id ≡ some me.worker
  pub victims :
      (idx v : ℕ) → get_elem? me.stealers idx ≡ some v → (v < n) × (idx ≢ me.id → v ≢ me.worker)

pub get_elem?-some : (l : List ℕ) (i : ℕ) → i < length l → (v : ℕ) × (get_elem? l i ≡ some v)
get_elem?-some [] i h = absurd (omega arith)
get_elem?-some (x ∷ l) zero h = (x, refl)
get_elem?-some (x ∷ l) (suc i) h = get_elem?-some l i (omega arith)

-- An index of the steal loop is in range.
pub victim :
    {n : ℕ} {me : WorkerThread}
    → IsWired n me
    → (i : ℕ)
    → (v : ℕ) × (get_elem? me.stealers ((me.id % length me.stealers + i) % length me.stealers)
        ≡ some v)
victim {me = me} wired i = get_elem?-some me.stealers _ (mod-lt _ (ground (arith, wired.enrolled)))
