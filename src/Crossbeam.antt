-- ===== src/Crossbeam.antt =====
-- What the runtime takes from the crates crossbeam-deque and crossbeam-channel, which are not part
-- of the repository (Cargo.toml): abstract queues and channels with the behaviour that their
-- documentation states. `Listed` has lists that meet it.

pub mod Listed
use luminal.Prelude.{ℕ, ◌≡◌, Bool, true, false, List, [], ◌∷◌, ◌++◌, Option, none, some, length}

-- The result of an attempt to steal: a lost race is `retry`.
pub data Steal (A : Type 0) : Type 0 where
  success : A → Steal A
  empty : Steal A
  retry : Steal A

-- The result of `Receiver::try_recv`.
pub data TryRecv (A : Type 0) : Type 0 where
  ok : A → TryRecv A
  empty : TryRecv A
  disconnected : TryRecv A

-- One item is taken off the front of a queue.
abbrev pub Takes : {A : Type 0} → Steal A → List A → List A → Type 0
Takes (Steal.success a) src src' = src ≡ a ∷ src'
Takes Steal.empty src src' = (src ≡ []) × (src' ≡ [])
Takes Steal.retry src src' = src' ≡ src

-- A batch is taken off the front: its first item is the result, the others go to `dst`.
abbrev pub TakesBatch : {A : Type 0} → Steal A → List A → List A → List A → List A → Type 0
TakesBatch {A} (Steal.success a) src src' dst dst' =
    (batch : List A) × (src ≡ a ∷ (batch ++ src')) × (dst' ≡ dst ++ batch)
TakesBatch Steal.empty src src' dst dst' = (src ≡ []) × (src' ≡ []) × (dst' ≡ dst)
TakesBatch Steal.retry src src' dst dst' = (src' ≡ src) × (dst' ≡ dst)

abbrev pub Pops : {A : Type 0} → Option A → List A → List A → Type 0
Pops (some a) src src' = src ≡ a ∷ src'
Pops none src src' = (src ≡ []) × (src' ≡ [])

-- A message, while one is queued, comes before the news that the sender is gone.
abbrev pub Receives : {A : Type 0} → TryRecv A → List A → Bool → List A → Type 0
Receives (TryRecv.ok a) src live src' = src ≡ a ∷ src'
Receives TryRecv.empty src live src' = (src ≡ []) × (live ≡ true) × (src' ≡ [])
Receives TryRecv.disconnected src live src' = (src ≡ []) × (live ≡ false) × (src' ≡ [])

-- `T` is the type of tasks, `V` that of results. `items`, `local` and `queued` are what a queue
-- holds, oldest first; `live` says whether the sender exists. Whether a steal loses a race is left
-- to the hidden part of the state.
pub record Crossbeam (T V : Type 0) : Type 1 where
  pub Injector : Type 0
  pub Worker : Type 0
  pub Channel : Type 0
  pub items : Injector → List T
  pub local : Worker → List T
  pub queued : Channel → List V
  pub live : Channel → Bool
  -- crossbeam_deque::Injector
  pub new : Injector
  pub push : Injector → T → Injector
  pub len : Injector → ℕ
  pub steal : Injector → Steal T × Injector
  pub steal_batch_and_pop : Injector → Worker → Steal T × Injector × Worker
  -- crossbeam_deque::Worker and Stealer
  pub new_fifo : Worker
  pub pop : Worker → Option T × Worker
  pub stealer_batch_and_pop : Worker → Worker → Steal T × Worker × Worker
  pub stealer_steal : Worker → Steal T × Worker
  -- crossbeam_channel::unbounded
  pub unbounded : Channel
  pub send : Channel → V → Channel
  pub drop_sender : Channel → Channel
  pub try_recv : Channel → TryRecv V × Channel
  pub items-new : items new ≡ []
  pub items-push : (q : Injector) (t : T) → items (push q t) ≡ items q ++ t ∷ []
  pub len_lem : (q : Injector) → len q ≡ length (items q)
  pub steal_lem : (q : Injector) → Takes (steal q).0 (items q) (items (steal q).1)
  pub steal_batch_and_pop_lem :
      (q : Injector) (w : Worker)
      → TakesBatch
          (steal_batch_and_pop q w).0
          (items q)
          (items (steal_batch_and_pop q w).1)
          (local w)
          (local (steal_batch_and_pop q w).2)
  pub local-new_fifo : local new_fifo ≡ []
  pub pop_lem : (w : Worker) → Pops (pop w).0 (local w) (local (pop w).1)
  pub stealer_batch_and_pop_lem :
      (v w : Worker)
      → TakesBatch
          (stealer_batch_and_pop v w).0
          (local v)
          (local (stealer_batch_and_pop v w).1)
          (local w)
          (local (stealer_batch_and_pop v w).2)
  pub stealer_steal_lem :
      (w : Worker) → Takes (stealer_steal w).0 (local w) (local (stealer_steal w).1)
  pub queued-unbounded : queued unbounded ≡ []
  pub live-unbounded : live unbounded ≡ true
  pub queued-send : (c : Channel) (v : V) → queued (send c v) ≡ queued c ++ v ∷ []
  pub live-send : (c : Channel) (v : V) → live (send c v) ≡ live c
  pub queued-drop_sender : (c : Channel) → queued (drop_sender c) ≡ queued c
  pub live-drop_sender : (c : Channel) → live (drop_sender c) ≡ false
  pub try_recv_lem :
      (c : Channel) → Receives (try_recv c).0 (queued c) (live c) (queued (try_recv c).1)
  pub live-try_recv : (c : Channel) → live (try_recv c).1 ≡ live c
