-- ===== src/Heapless.antt =====
-- What the single-threaded executor takes from the crate heapless, which is not part of the
-- repository (Cargo.toml): bounded queues with the behaviour that its documentation states.
pub mod Listed
use luminal.Prelude.{
  ℕ, ◌≤◌, ◌<◌, ◌≡◌, Bool, true, false, List, [], ◌∷◌, ◌++◌, Option, none, some, length,
}
use luminal.Crossbeam.{Pops}

-- A queue of tasks with room for `n`, and a queue of results with room for `m`. `entries` and
-- `stored` are what they hold, oldest first. A push says whether there was room.
pub record Heapless (T V : Type 0) (n m : ℕ) : Type 1 where
  pub Deque : Type 0
  pub MpMcQueue : Type 0
  pub entries : Deque → List T
  pub stored : MpMcQueue → List V
  -- heapless::Deque
  pub new : Deque
  pub push_back : Deque → T → Bool × Deque
  pub pop_front : Deque → Option T × Deque
  pub len : Deque → ℕ
  -- heapless::mpmc::MpMcQueue
  pub new_queue : MpMcQueue
  pub enqueue : MpMcQueue → V → Bool × MpMcQueue
  pub dequeue : MpMcQueue → Option V × MpMcQueue
  pub entries-new : entries new ≡ []
  pub push_back_room :
      (q : Deque) (t : T)
      → length (entries q) < n
      → ((push_back q t).0 ≡ true) × (entries (push_back q t).1 ≡ entries q ++ t ∷ [])
  pub push_back_full :
      (q : Deque) (t : T)
      → n ≤ length (entries q)
      → ((push_back q t).0 ≡ false) × (entries (push_back q t).1 ≡ entries q)
  pub pop_front_lem : (q : Deque) → Pops (pop_front q).0 (entries q) (entries (pop_front q).1)
  pub len_lem : (q : Deque) → len q ≡ length (entries q)
  pub stored-new_queue : stored new_queue ≡ []
  pub enqueue_room :
      (q : MpMcQueue) (v : V)
      → length (stored q) < m
      → ((enqueue q v).0 ≡ true) × (stored (enqueue q v).1 ≡ stored q ++ v ∷ [])
  pub enqueue_full :
      (q : MpMcQueue) (v : V)
      → m ≤ length (stored q)
      → ((enqueue q v).0 ≡ false) × (stored (enqueue q v).1 ≡ stored q)
  pub dequeue_lem : (q : MpMcQueue) → Pops (dequeue q).0 (stored q) (stored (dequeue q).1)
