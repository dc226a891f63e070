-- ===== src/Runtime/Global.antt =====
-- The global `spawn` of src/runtime/runtime.rs, and the runtime that a thread keeps for it.
pub mod Waits
use luminal.Prelude.{
  ℕ, zero, suc, ◌+◌, ◌%◌, ◌^◌, ◌≡◌, refl, sym, ap, ◌∙◌, List, [], Option, none, some, update_self,
}
use mathlib.Core.Path.{subst}
use luminal.Crossbeam.{Crossbeam}
use luminal.Task.{Future, Task, JoinHandle, new_task, wrapped}
use luminal.World.{World}
use luminal.Executor
use luminal.Executor.Threads
use luminal.Executor.Threads.{num_workers}
use luminal.Runtime
use luminal.Runtime.{Process, Cell}

module _ {V : Type 0} (X : Crossbeam (Task V) V) where
  -- What starting the workers leaves as it was.
  abbrev pub Alike : World X → World X → Type 0
  Alike w v =
      (w.global_queue ≡ v.global_queue)
      × (w.next_task_id ≡ v.next_task_id)
      × (w.next_channel ≡ v.next_channel)

  pub start_workers-Alike :
      (n : ℕ)
      → (i : ℕ) → (stealers : List ℕ) → (w : World X)
      → Alike (Threads.start_workers X n i stealers w).1 w
  unfolding Threads.start_workers
  start_workers-Alike zero i stealers w = (refl, refl, refl)
  start_workers-Alike (suc n) i stealers w = start_workers-Alike n (i + 1) _ _

  pub made-world :
      (available : Option ℕ)
      → (p : Process X)
      → ((Runtime.new X available p).1.cells p.next_cell).world
        ≡ (Threads.new X available 1 (record { boxes = 0; live = [] })).1
  unfolding Runtime.new
  made-world available p = ap (λ (c : Cell X). c.world) (update_self p.cells p.next_cell _)

  pub spawned-world :
      (rt : Runtime.Runtime)
      → (f : Future V) → (p : Process X) → (w : World X) → (p.cells rt.executor).world ≡ w
      → ((Runtime.spawn X rt f p).1.cells rt.executor).world ≡ (Executor.spawn X f w).1
  unfolding Runtime.spawn
  spawned-world rt f p w h =
      ap (λ (c : Cell X). c.world) (update_self p.cells rt.executor _)
      ∙ ap (λ v. (Executor.spawn X f v).1) h

  abbrev handle_of : ℕ → ℕ → Option JoinHandle
  handle_of i c = some (record { id = record { raw = i }; receiver = c })

  abbrev issued : World X → Option JoinHandle
  issued w = handle_of w.next_task_id w.next_channel

  handle_if : {i i' c c' : ℕ} → i ≡ i' → c ≡ c' → handle_of i c ≡ handle_of i' c'
  handle_if p q = cc

  abbrev pushed : X.Injector → ℕ → ℕ → Future V → X.Injector
  pushed queue i c f = X.push queue (new_task (record { raw = i }) (wrapped c f))

  two_pushes :
      {queue : X.Injector}
      → {i c : ℕ} → {f g : Future V} → queue ≡ X.new
      → i ≡ 1
      → c ≡ 0
      → pushed (pushed queue i c f) ((i + 1) % 2 ^ 64) (c + 1) g ≡ pushed (pushed X.new 1 0 f) 2 1 g
  two_pushes {i} {c} {f} {g} p q r =
      ap (λ q'. pushed (pushed q' i c f) ((i + 1) % 2 ^ 64) (c + 1) g) p
      ∙ ap (λ i. pushed (pushed X.new i c f) ((i + 1) % 2 ^ 64) (c + 1) g) q
      ∙ ap (λ c. pushed (pushed X.new 1 c f) 2 (c + 1) g) r

  -- What two calls come to, given what the first gives.
  abbrev Twice : Option ℕ → Future V → Future V → ℕ → Option JoinHandle × Process X → Type 0
  Twice available' f g e (j, p') =
      let (k, p'') = Runtime.spawn_global X available' g p' in
      (p''.next_cell ≡ e + 1)
      × (j ≡ some (record { id = record { raw = 1 }; receiver = 0 }))
      × (k ≡ some (record { id = record { raw = 2 }; receiver = 1 }))
      × ((p''.cells e).world.global_queue
          ≡ X.push (X.push X.new (new_task (record { raw = 1 }) (wrapped 0 f)))
              (new_task (record { raw = 2 }) (wrapped 1 g)))

  -- On a thread that has no runtime yet, two futures that are spawned by the global `spawn` make one
  -- executor between them, and go to its queue in their order, as tasks 1 and 2 with a channel of
  -- their own each.
  pub spawn_global-twice :
      (available available' : Option ℕ)
      → (f g : Future V) → (p : Process X) → p.thread_runtime ≡ none
      → let (j, p') = Runtime.spawn_global X available f p in
        let (k, p'') = Runtime.spawn_global X available' g p' in
        (p''.next_cell ≡ p.next_cell + 1)
        × (j ≡ some (record { id = record { raw = 1 }; receiver = 0 }))
        × (k ≡ some (record { id = record { raw = 2 }; receiver = 1 }))
        × ((p''.cells p.next_cell).world.global_queue
            ≡ X.push
                (X.push X.new (new_task (record { raw = 1 }) (wrapped 0 f)))
                (new_task (record { raw = 2 }) (wrapped 1 g)))
  unfolding Runtime.spawn_global Runtime.with_thread_local_runtime Runtime.new Threads.new
      Runtime.spawn Executor.spawn Executor.spawn_internal
  spawn_global-twice available available' f g p h =
      subst (Twice available' f g p.next_cell)
        (ap (λ o. Runtime.using_runtime X available (λ rt. Runtime.spawn X rt f) o p) (sym h))
        (let rt : Runtime.Runtime = record { executor = p.next_cell } in
          let p' : Process X = record (Runtime.new X available p).1 { thread_runtime = some rt } in
          let crew = Threads.new X available 1 (record { boxes = 0; live = [] }) in
          let made = made-world available p in
          let first = spawned-world rt f p' _ made in
          let second = spawned-world rt g (Runtime.spawn X rt f p').1 _ first in
          let (queue, id, channel) =
            start_workers-Alike (num_workers available) 0 []
              (Threads.fresh X 1 (record { boxes = 0; live = [] })) in
          (
            refl,
            ap issued made ∙ handle_if id channel,
            ap issued first ∙ handle_if (ap (λ i. (i + 1) % 2 ^ 64) id) (ap (λ c. c + 1) channel),
            ap (λ (w : World X). w.global_queue) second ∙ two_pushes queue id channel,
          ))
