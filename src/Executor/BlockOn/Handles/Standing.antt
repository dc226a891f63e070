-- ===== src/Executor/BlockOn/Handles/Standing.antt =====
-- Join handles of src/runtime/join_handle.rs whose results are there, or will be after one poll each.
use luminal.Prelude.{ℕ, ◌+◌, ◌≤◌, ◌<◌, ◌≡◌, ◌≢◌, refl, ap, List, [], ◌∷◌, ◌++◌, update, arith, All}
use luminal.Crossbeam.{Crossbeam}
use luminal.Task.{value, wrapped, Task}
use luminal.World.{World}
use luminal.Executor.BlockOn.Liveness.Storage.{Silent, kept}

module _ {V : Type 0} (X : Crossbeam (Task V) V) where
  -- A channel, and the result that is to come out of it.
  abbrev pub Entry : Type 0
  Entry = ℕ × V

  -- The tasks of the entries, and others after them.
  abbrev pub Lines : List Entry → List (Task V) → List (Task V) → Type 0
  Lines [] after ts = ts ≡ after
  Lines ((c, v) ∷ q) after ts =
      (t : Task V) × (rest : List (Task V)) × (ts ≡ t ∷ rest)
      × (t.future ≡ wrapped c (value v))
      × Lines q after rest

  -- The channels increase, from `b` on and below `m`.
  abbrev pub Ascends : ℕ → ℕ → List Entry → Type 0
  Ascends b m [] = b ≤ m
  Ascends b m ((c, v) ∷ l) = (b ≤ c) × Ascends (c + 1) m l

  abbrev pub Full : (ℕ → X.Channel) → List Entry → Type 0
  Full cs l = All (λ (e : Entry). X.queued (cs e.0) ≡ e.1 ∷ []) l

  abbrev pub Quiet : (ℕ → X.Channel) → List Entry → Type 0
  Quiet cs l = All (λ (e : Entry). Silent X (cs e.0)) l

  abbrev pub Avoids : ℕ → List Entry → Type 0
  Avoids d l = All (λ (e : Entry). d ≢ e.0) l

  pub Ascends-le : (b m : ℕ) (l : List Entry) → Ascends b m l → b ≤ m
  Ascends-le b m [] h = h
  Ascends-le b m ((c, v) ∷ l) (h, r) = omega (arith, Ascends-le (c + 1) m l r)

  pub Avoids-beyond : (b m d : ℕ) (l : List Entry) → m ≤ d → Ascends b m l → Avoids d l
  Avoids-beyond b m d [] le h = tt
  Avoids-beyond b m d ((c, v) ∷ l) le (h, r) =
      (λ e. omega (arith, Ascends-le (c + 1) m l r), Avoids-beyond (c + 1) m d l le r)

  pub Avoids-below : (b m d : ℕ) (l : List Entry) → d < b → Ascends b m l → Avoids d l
  Avoids-below b m d [] lt h = tt
  Avoids-below b m d ((c, v) ∷ l) lt (h, r) =
      (λ e. omega arith, Avoids-below (c + 1) m d l (omega arith) r)

  pub Ascends-lower : (b b' m : ℕ) (l : List Entry) → b' ≤ b → Ascends b m l → Ascends b' m l
  Ascends-lower b b' m [] le h = omega arith
  Ascends-lower b b' m ((c, v) ∷ l) le (h, r) = (omega arith, r)

  pub Ascends-raise : (b m m' : ℕ) (l : List Entry) → m ≤ m' → Ascends b m l → Ascends b m' l
  Ascends-raise b m m' [] le h = omega arith
  Ascends-raise b m m' ((c, v) ∷ l) le (h, r) = (h, Ascends-raise (c + 1) m m' l le r)

  pub Ascends-snoc :
      (b m c : ℕ) (v : V) (l : List Entry)
      → m ≤ c
      → Ascends b m l
      → Ascends b (c + 1) (l ++ (c, v) ∷ [])
  Ascends-snoc b m c v [] le h = (omega arith, omega arith)
  Ascends-snoc b m c v ((d, u) ∷ l) le (h, r) = (h, Ascends-snoc (d + 1) m c v l le r)

  -- A channel that no entry has may change.
  pub All-update :
      (P : Entry → X.Channel → Type 0) (cs : ℕ → X.Channel) (d : ℕ) (x : X.Channel) (l : List Entry)
      → Avoids d l
      → All (λ (e : Entry). P e (cs e.0)) l
      → All (λ (e : Entry). P e (update cs d x e.0)) l
  All-update P cs d x [] av h = tt
  All-update P cs d x (e ∷ l) (ne, av) (p, h) =
      (kept X (P e) cs d e.0 x ne p, All-update P cs d x l av h)

  pub Lines-snoc :
      (q : List Entry) (ts : List (Task V)) (c : ℕ) (v : V) (t : Task V)
      → t.future ≡ wrapped c (value v)
      → Lines q [] ts
      → Lines (q ++ (c, v) ∷ []) [] (ts ++ t ∷ [])
  Lines-snoc [] ts c v t e h = (t, [], ap (λ l. l ++ t ∷ []) h, e, refl)
  Lines-snoc ((d, u) ∷ q) ts c v t e (s, rest, first, f, h) =
      (s, rest ++ t ∷ [], ap (λ l. l ++ t ∷ []) first, f, Lines-snoc q rest c v t e h)

  pub Lines-after :
      (q : List Entry) (ts : List (Task V)) (t : Task V)
      → Lines q [] ts
      → Lines q (t ∷ []) (ts ++ t ∷ [])
  Lines-after [] ts t h = ap (λ l. l ++ t ∷ []) h
  Lines-after ((d, u) ∷ q) ts t (s, rest, first, f, h) =
      (s, rest ++ t ∷ [], ap (λ l. l ++ t ∷ []) first, f, Lines-after q rest t h)

  -- The results of `a` are there. Those of `q` come from the first tasks of the queue, and the tasks
  -- `after` follow.
  pub record Stands (m : ℕ) (a q : List Entry) (after : List (Task V)) (w : World X) : Type 0 where
    pub middle : ℕ
    pub low : Ascends 0 middle a
    pub high : Ascends middle m q
    pub bound : m ≤ w.next_channel
    pub lines : Lines q after (X.items w.global_queue)
    pub full : Full w.channels a
    pub quiet : Quiet w.channels q
