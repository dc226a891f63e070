-- ===== src/Tests/Runtimes.antt =====
-- A process with a runtime, a handle to it, and the global functions.
use luminal.Prelude.{ℕ, ◌≡◌, refl, true, none, some, [], arith, ℕ_discrete}
use luminal.Crossbeam.{Crossbeam}
use luminal.Crossbeam.Listed.{listed, uncontended}
use luminal.Task.{value, wrapped, Task, new_task}
use luminal.Executor.Threads.{fresh}
use luminal.Runtime
use luminal.Runtime.{Runtime, Process}
use luminal.Runtime.Global.{spawn_global-twice}
use luminal.Runtime.Sharing.{begin, makes, handles, releases, Lifetime-shutdown}
use luminal.Handle
use luminal.Handle.{Handle}

abbrev lists : Crossbeam (Task ℕ) ℕ
lists = listed (Task ℕ) ℕ

-- No executor was made yet.
abbrev empty : Process lists
empty = record {
  cells = λ e. record {
    strong = 0;
    world = fresh lists 1 (record { boxes = 0; live = [] });
    workers = [];
  };
  next_cell = 0;
  thread_runtime = none;
}

abbrev rt : Runtime
rt = record { executor = 0 }

abbrev made : Process lists
made = (Runtime.new lists (some 2) empty).1

abbrev shared : Process lists
shared = (Handle.handle lists rt made).1

-- The handle outlives the runtime, and then goes as well.
abbrev dropped : Process lists
dropped = Runtime.release lists 0 (Runtime.release lists 0 shared)

Lifetime-shutdown_example :
    ((dropped.cells 0).strong ≡ 0) × ((dropped.cells 0).world.shutdown ≡ true)
unfolding Runtime.new Runtime.release Handle.handle ℕ_discrete
Lifetime-shutdown_example =
    Lifetime-shutdown lists
      (releases
        (releases (handles (makes (begin empty refl) (some 2)) rt (omega arith)) 0 (omega arith)) 0
        (omega arith))
      0 (omega arith)

spawn_global-twice_example :
    let (j, p') = Runtime.spawn_global lists (some 2) (value 4) empty in
    let (k, p'') = Runtime.spawn_global lists none (value 5) p' in
    (p''.next_cell ≡ 1)
    × (j ≡ some (record { id = record { raw = 1 }; receiver = 0 }))
    × (k ≡ some (record { id = record { raw = 2 }; receiver = 1 }))
    × ((p''.cells 0).world.global_queue
        ≡ lists.push
            (lists.push lists.new (new_task (record { raw = 1 }) (wrapped 0 (value 4))))
            (new_task (record { raw = 2 }) (wrapped 1 (value 5))))
spawn_global-twice_example = spawn_global-twice lists (some 2) none (value 4) (value 5) empty refl

abbrev calm : Crossbeam (Task ℕ) ℕ
calm = uncontended (Task ℕ) ℕ

abbrev unused : Process calm
unused = record {
  cells = λ e. record {
    strong = 0;
    world = fresh calm 1 (record { boxes = 0; live = [] });
    workers = [];
  };
  next_cell = 0;
  thread_runtime = none;
}
