-- ===== src/Task/Senders.antt =====
-- Who holds the sender of a channel or result queue, among the tasks of src/runtime/task.rs.
use luminal.Prelude.{ℕ, ◌≡◌, ◌≢◌, ◌⊎◌, inl, inr, List, [], ◌∷◌, ◌++◌, All, All-append}
use luminal.Task.{BoxFuture, wrapped, unit, completed, Task}
use luminal.Task.Finite.{Gives}

module _ {V : Type 0} where
  -- The task does not hold the sender of `c`.
  abbrev pub Foreign : ℕ → BoxFuture V → Type 0
  Foreign c (wrapped d f) = d ≢ c
  Foreign c unit = Unit
  Foreign c completed = Unit

  abbrev pub Others : ℕ → List (Task V) → Type 0
  Others c l = All (λ t. Foreign c t.future) l

  -- The task holds the sender of `c`, and will send `v`.
  abbrev pub Sends : ℕ → V → BoxFuture V → Type 0
  Sends c v (wrapped d f) = (d ≡ c) × Gives v f
  Sends c v unit = ⊥
  Sends c v completed = ⊥

  -- One task of the list is such a task.
  abbrev pub Holds : ℕ → V → List (Task V) → Type 0
  Holds c v [] = ⊥
  Holds c v (t ∷ l) = (Sends c v t.future × Others c l) ⊎ ((Foreign c t.future) × Holds c v l)

  pub Others-snoc :
      (c : ℕ) (l : List (Task V)) (t : Task V)
      → Foreign c t.future
      → Others c l
      → Others c (l ++ t ∷ [])
  Others-snoc c l t ne h = All-append (λ u. Foreign c u.future) l (t ∷ []) h (ne, tt)

  pub Holds-snoc :
      (c : ℕ) (v : V) (l : List (Task V)) (t : Task V)
      → Foreign c t.future
      → Holds c v l
      → Holds c v (l ++ t ∷ [])
  Holds-snoc c v [] t ne h = absurd h
  Holds-snoc c v (u ∷ l) t ne (inl (s, o)) = inl (s, Others-snoc c l t ne o)
  Holds-snoc c v (u ∷ l) t ne (inr (n, h)) = inr (n, Holds-snoc c v l t ne h)

  pub Holds-last :
      (c : ℕ) (v : V) (l : List (Task V)) (t : Task V)
      → Sends c v t.future
      → Others c l
      → Holds c v (l ++ t ∷ [])
  Holds-last c v [] t s o = inl (s, tt)
  Holds-last c v (u ∷ l) t s o = inr (o.0, Holds-last c v l t s o.1)
