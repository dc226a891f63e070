-- ===== src/JoinHandle.antt =====
-- src/runtime/join_handle.rs: a poll of a join handle. The warning that is printed when the channel
-- is disconnected is left out.
use luminal.Prelude.{update}
use luminal.Crossbeam.{Crossbeam, TryRecv}
use luminal.Task.{JoinHandle, Task}
use luminal.Task.Poll.{Poll, ready, pending}
use luminal.World.{World}

module _ {V : Type 0} (X : Crossbeam (Task V) V) where
  abbrev pub received : TryRecv V → Poll V
  received (TryRecv.ok v) = ready v
  received TryRecv.empty = pending
  received TryRecv.disconnected = pending

  unfoldable pub poll_handle : JoinHandle → World X → Poll V × World X
  poll_handle j w =
      let (r, c) = X.try_recv (w.channels j.receiver) in
      (received r, record w { channels = update w.channels j.receiver c })
