-- ===== src/Heapless/Listed.antt =====
-- The heapless interface met by lists, for tests: the front of a list is the oldest entry.
use luminal.Prelude.{
  ℕ, ◌≤◌, ◌<◌, ◌≡◌, refl, Bool, true, false, List, [], ◌∷◌, ◌++◌, length, ltb, if◌then◌else◌,
  lt→ltb, le→ltb,
}
use luminal.Crossbeam.Listed.{pop_front, pop_front_lem}
use luminal.Heapless.{Heapless}

module _ {A : Type 0} (n : ℕ) where
  abbrev pub append : List A → A → Bool × List A
  append l a = if ltb (length l) n then (true, l ++ a ∷ []) else (false, l)

  pub append_room :
      (l : List A) (a : A) → length l < n → ((append l a).0 ≡ true) × ((append l a).1 ≡ l ++ a ∷ [])
  append_room l a h = rw (lt→ltb _ _ h) (refl, refl)

  pub append_full :
      (l : List A) (a : A) → n ≤ length l → ((append l a).0 ≡ false) × ((append l a).1 ≡ l)
  append_full l a h = rw (le→ltb _ _ h) (refl, refl)

abbrev pub bounded : (T V : Type 0) (n m : ℕ) → Heapless T V n m
bounded T V n m = record {
  Deque = List T;
  MpMcQueue = List V;
  entries = λ q. q;
  stored = λ q. q;
  new = [];
  push_back = append n;
  pop_front = pop_front;
  len = λ q. length q;
  new_queue = [];
  enqueue = append m;
  dequeue = pop_front;
  entries-new = refl;
  push_back_room = append_room n;
  push_back_full = append_full n;
  pop_front_lem = pop_front_lem;
  len_lem = λ q. refl;
  stored-new_queue = refl;
  enqueue_room = append_room m;
  enqueue_full = append_full m;
  dequeue_lem = pop_front_lem;
}
