-- ===== src/Task/Poll.antt =====
-- Polling: what `Task::poll` does to a future and to the runtime that the future works on.
pub mod Keeps
pub mod Maps
pub mod Promise
use luminal.Prelude.{ℕ}
use luminal.Task.{
  JoinHandle, Future, value, yields, spawns, joins, panics, BoxFuture, wrapped, unit, completed,
  Task,
}

pub data Poll (A : Type 0) : Type 0 where
  ready : A → Poll A
  pending : Poll A

-- A call returns, or unwinds with a panic.
pub data Outcome (A : Type 0) : Type 0 where
  returned : A → Outcome A
  panicked : Outcome A

-- What a future asks of the runtime `W`: to spawn, to poll a join handle, to deliver a result (the
-- sender is dropped right after), and to drop the sender of a future that panicked.
pub record Host (V W : Type 0) : Type 0 where
  pub spawn : Future V → W → JoinHandle × W
  pub join : JoinHandle → W → Poll V × W
  pub deliver : ℕ → V → W → W
  pub abandon : ℕ → W → W

module _ {V W : Type 0} (h : Host V W) where
  -- One poll runs an async block up to the next point where it waits. A block that has ended, by its
  -- result or by a panic, panics if it is polled again.
  unfoldable pub poll_future : Future V → W → Outcome (Poll V) × Future V × W
  poll_future (value v) w = (returned (ready v), panics, w)
  poll_future (yields f) w = (returned pending, f, w)
  poll_future (spawns f k) w = let s = h.spawn f w in poll_future (k s.0) s.1
  poll_future (joins j k) w = elim (h.join j w).0 [
    | ready v ↦ poll_future (k v) (h.join j w).1
    | pending ↦ (returned pending, joins j k, (h.join j w).1)
  ]
  poll_future panics w = (panicked, panics, w)

  -- The end of a poll of the wrapper `async move { let result = future.await; sender.send(result) }`.
  abbrev pub settle :
      ℕ → Outcome (Poll V) × Future V × W → Outcome (Poll (Unit {0})) × BoxFuture V × W
  settle c (returned (ready v), f, w) = (returned (ready tt), completed, h.deliver c v w)
  settle c (returned pending, f, w) = (returned pending, wrapped c f, w)
  settle c (panicked, f, w) = (panicked, completed, h.abandon c w)

  unfoldable pub poll_box : BoxFuture V → W → Outcome (Poll (Unit {0})) × BoxFuture V × W
  poll_box (wrapped c f) w = settle c (poll_future f w)
  poll_box unit w = (returned (ready tt), completed, w)
  poll_box completed w = (panicked, completed, w)

  unfoldable pub poll : Task V → W → Outcome (Poll (Unit {0})) × Task V × W
  poll t w = let (r, f, w') = poll_box t.future w in (r, record t { future = f }, w')
