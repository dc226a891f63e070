-- ===== src/Crossbeam/Listed.antt =====
-- The crossbeam interface met by lists, for tests: the front of a list is the oldest entry. A steal
-- takes a batch of up to two, and an injector loses a race for each `true` among its `races`.
use mathlib.Core.List.{append-nil}
use luminal.Prelude.{
  ◌≡◌, ◌≢◌, refl, sym, Bool, true, false, List, [], ◌∷◌, ◌++◌, Option, none, some, length,
}
use luminal.Crossbeam.{Steal, TryRecv, Takes, TakesBatch, Pops, Receives, Crossbeam}

pub record Racing (T : Type 0) : Type 0 where
  pub entries : List T
  pub races : List Bool

pub record Wire (V : Type 0) : Type 0 where
  pub messages : List V
  pub sender : Bool

module _ {T : Type 0} where
  abbrev pub take_front : List T → Steal T × List T
  take_front [] = (Steal.empty, [])
  take_front (t ∷ l) = (Steal.success t, l)

  abbrev pub pop_front : List T → Option T × List T
  pop_front [] = (none, [])
  pop_front (t ∷ l) = (some t, l)

  abbrev take_batch : List T → List T → Steal T × List T × List T
  take_batch [] w = (Steal.empty, [], w)
  take_batch (t ∷ []) w = (Steal.success t, [], w)
  take_batch (t ∷ u ∷ l) w = (Steal.success t, l, w ++ u ∷ [])

  abbrev race : List Bool → List T → Steal T × Racing T
  race (true ∷ rs) l = (Steal.retry, record { entries = l; races = rs })
  race (false ∷ rs) l = let (s, l') = take_front l in (s, record { entries = l'; races = rs })
  race [] l = let (s, l') = take_front l in (s, record { entries = l'; races = [] })

  abbrev race_batch : List Bool → List T → List T → Steal T × Racing T × List T
  race_batch (true ∷ rs) l w = (Steal.retry, record { entries = l; races = rs }, w)
  race_batch (false ∷ rs) l w =
      let (s, l', w') = take_batch l w in (s, record { entries = l'; races = rs }, w')
  race_batch [] l w =
      let (s, l', w') = take_batch l w in (s, record { entries = l'; races = [] }, w')

  pub take_front_lem : (l : List T) → Takes (take_front l).0 l (take_front l).1
  take_front_lem [] = (refl, refl)
  take_front_lem (t ∷ l) = refl

  pub pop_front_lem : (l : List T) → Pops (pop_front l).0 l (pop_front l).1
  pop_front_lem [] = (refl, refl)
  pop_front_lem (t ∷ l) = refl

  pub take_batch_lem :
      (l w : List T) → TakesBatch (take_batch l w).0 l (take_batch l w).1 w (take_batch l w).2
  take_batch_lem [] w = (refl, refl, refl)
  take_batch_lem (t ∷ []) w = ([], refl, sym (append-nil w))
  take_batch_lem (t ∷ u ∷ l) w = (u ∷ [], refl, refl)

  pub race_lem : (rs : List Bool) (l : List T) → Takes (race rs l).0 l (race rs l).1.entries
  race_lem (true ∷ rs) l = refl
  race_lem (false ∷ rs) l = take_front_lem l
  race_lem [] l = take_front_lem l

  pub race_batch_lem :
      (rs : List Bool) (l w : List T)
      → TakesBatch (race_batch rs l w).0 l (race_batch rs l w).1.entries w (race_batch rs l w).2
  race_batch_lem (true ∷ rs) l w = (refl, refl)
  race_batch_lem (false ∷ rs) l w = take_batch_lem l w
  race_batch_lem [] l w = take_batch_lem l w

module _ {V : Type 0} where
  abbrev receive : List V → Bool → TryRecv V × Wire V
  receive (v ∷ l) b = (TryRecv.ok v, record { messages = l; sender = b })
  receive [] true = (TryRecv.empty, record { messages = []; sender = true })
  receive [] false = (TryRecv.disconnected, record { messages = []; sender = false })

  pub receive_lem : (l : List V) (b : Bool) → Receives (receive l b).0 l b (receive l b).1.messages
  receive_lem (v ∷ l) b = refl
  receive_lem [] true = (refl, refl, refl)
  receive_lem [] false = (refl, refl, refl)

  pub sender-receive : (l : List V) (b : Bool) → (receive l b).1.sender ≡ b
  sender-receive (v ∷ l) b = refl
  sender-receive [] true = refl
  sender-receive [] false = refl

abbrev pub listed : (T V : Type 0) → Crossbeam T V
listed T V = record {
  Injector = Racing T;
  Worker = List T;
  Channel = Wire V;
  items = λ q. q.entries;
  local = λ w. w;
  queued = λ c. c.messages;
  live = λ c. c.sender;
  new = record { entries = []; races = [] };
  push = λ q t. record q { entries = q.entries ++ t ∷ [] };
  len = λ q. length q.entries;
  steal = λ q. race q.races q.entries;
  steal_batch_and_pop = λ q w. race_batch q.races q.entries w;
  new_fifo = [];
  pop = pop_front;
  stealer_batch_and_pop = take_batch;
  stealer_steal = take_front;
  unbounded = record { messages = []; sender = true };
  send = λ c v. record c { messages = c.messages ++ v ∷ [] };
  drop_sender = λ c. record c { sender = false };
  try_recv = λ c. receive c.messages c.sender;
  items-new = refl;
  items-push = λ q t. refl;
  len_lem = λ q. refl;
  steal_lem = λ q. race_lem q.races q.entries;
  steal_batch_and_pop_lem = λ q w. race_batch_lem q.races q.entries w;
  local-new_fifo = refl;
  pop_lem = pop_front_lem;
  stealer_batch_and_pop_lem = take_batch_lem;
  stealer_steal_lem = take_front_lem;
  queued-unbounded = refl;
  live-unbounded = refl;
  queued-send = λ c v. refl;
  live-send = λ c v. refl;
  queued-drop_sender = λ c. refl;
  live-drop_sender = λ c. refl;
  try_recv_lem = λ c. receive_lem c.messages c.sender;
  live-try_recv = λ c. sender-receive c.messages c.sender;
}

-- The same, where no steal of a single task loses a race.
abbrev pub uncontended : (T V : Type 0) → Crossbeam T V
uncontended T V = record (listed T V) {
  steal = λ q. let (s, l) = take_front q.entries in (s, record q { entries = l });
  steal_lem = λ q. take_front_lem q.entries;
}

pub take_front-ne : {T : Type 0} (l : List T) → (take_front l).0 ≢ Steal.retry
take_front-ne [] e = cc
take_front-ne (t ∷ l) e = cc
