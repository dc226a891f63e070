-- ===== src/Runtime/Sharing.antt =====
-- Who owns the executors of a process: src/runtime/runtime.rs and src/runtime/handle.rs.
use luminal.Prelude.{
  ℕ, zero, suc, ◌+◌, ◌-◌, ◌<◌, ◌≤◌, ◌==◌, if◌then◌else◌, ◌≡◌, ◌≢◌, [], refl, sym, ap, ◌∙◌, Bool,
  true, false, List, Option, update, ite, ℕ_discrete, arith,
}
use mathlib.Core.Path.{subst}
use luminal.Crossbeam.{Crossbeam}
use luminal.Task.{Future, Task}
use luminal.World.{World}
use luminal.Executor
use luminal.Executor.Threads
use luminal.Executor.Threads.{num_workers}
use luminal.Runtime
use luminal.Runtime.{Runtime, Process, Cell, with_world, share}
use luminal.Handle
use luminal.Handle.{Handle}

module _ {V : Type 0} (X : Crossbeam (Task V) V) where
  -- The life of a process whose runtimes and handles own each executor as often as `owners` says. The
  -- threads of an executor change its state, but not the flag of its shutdown.
  pub data Lifetime : (ℕ → ℕ) → Process X → Type 0 where
    begin : (p : Process X) → p.next_cell ≡ 0 → Lifetime (λ _. 0) p
    makes :
        {owners : ℕ → ℕ}
        → {p : Process X} → Lifetime owners p
        → (available : Option ℕ)
        → Lifetime (update owners p.next_cell 1) (Runtime.new X available p).1
    clones :
        {owners : ℕ → ℕ}
        → {p : Process X} → Lifetime owners p
        → (rt : Runtime) → 0 < owners rt.executor
        → Lifetime (update owners rt.executor (owners rt.executor + 1)) (Runtime.clone X rt p).1
    handles :
        {owners : ℕ → ℕ}
        → {p : Process X} → Lifetime owners p
        → (rt : Runtime) → 0 < owners rt.executor
        → Lifetime (update owners rt.executor (owners rt.executor + 1)) (Handle.handle X rt p).1
    copies :
        {owners : ℕ → ℕ}
        → {p : Process X} → Lifetime owners p
        → (h : Handle) → 0 < owners h.executor
        → Lifetime (update owners h.executor (owners h.executor + 1)) (Handle.clone X h p).1
    spawns :
        {owners : ℕ → ℕ}
        → {p : Process X} → Lifetime owners p
        → (rt : Runtime) → (f : Future V) → Lifetime owners (Runtime.spawn X rt f p).1
    works :
        {owners : ℕ → ℕ}
        → {p : Process X} → Lifetime owners p
        → (e : ℕ) → (w : World X) → w.shutdown ≡ (p.cells e).world.shutdown
        → Lifetime owners (with_world X p e w)
    releases :
        {owners : ℕ → ℕ}
        → {p : Process X} → Lifetime owners p
        → (e : ℕ) → 0 < owners e
        → Lifetime (update owners e (owners e - 1)) (Runtime.release X e p)

  -- A cell that `n` own: its flag is raised just if there are none.
  record Owned (n : ℕ) (c : Cell X) : Type 0 where
    counts : c.strong ≡ n
    flag : c.world.shutdown ≡ (n == 0)

  start_workers-shutdown :
      (n : ℕ)
      → (i : ℕ) → (stealers : List ℕ) → (w : World X)
      → (Threads.start_workers X n i stealers w).1.shutdown ≡ w.shutdown
  unfolding Threads.start_workers
  start_workers-shutdown zero i stealers w = refl
  start_workers-shutdown (suc n) i stealers w = start_workers-shutdown n (i + 1) _ _

  owned_if :
      {P : Type 0} {n m : ℕ} {c d : Cell X}
      → (t : Dec P) → (P → Owned n c)
      → Owned m d
      → Owned (ite t n m) (ite t c d)
  owned_if (yes q) H K = H q
  owned_if (no q) H K = K

  owned_new :
      {m : ℕ} {c d : Cell X}
      → (e i : ℕ) → (t : Dec (e ≡ i)) → Owned 1 c
      → (e ≢ i → Owned m d)
      → Owned (ite t 1 m) (ite t c d)
  owned_new e i (yes q) K H = K
  owned_new e i (no q) K H = H q

  owned_same :
      {n : ℕ}
      → (e i : ℕ) → (cells : ℕ → Cell X) → (w : World X) → w.shutdown ≡ (cells e).world.shutdown
      → (t : Dec (e ≡ i)) → Owned n (cells i)
      → Owned n (ite t (record (cells e) { world = w }) (cells i))
  owned_same {n} e i cells w h (yes q) K =
      let K' = subst (λ j. Owned n (cells j)) (sym q) K in
      record { counts = K'.counts; flag = h ∙ K'.flag }
  owned_same e i cells w h (no q) K = K

  -- The executors below `next` are owned as often as `owners` says, and the others are not.
  record Accounted (owners : ℕ → ℕ) (cells : ℕ → Cell X) (next : ℕ) : Type 0 where
    made : (e : ℕ) → e < next → Owned (owners e) (cells e)
    unmade : (e : ℕ) → next ≤ e → owners e ≡ 0

  update-Accounted :
      {owners : ℕ → ℕ}
      → {cells : ℕ → Cell X} → {next : ℕ} → (e : ℕ) → {n : ℕ} → {c : Cell X}
      → Accounted owners cells next
      → 0 < owners e
      → Owned n c
      → Accounted (update owners e n) (update cells e c) next
  update-Accounted {owners} {cells} {next} e {n} {c} H h K = record {
    made = λ i below. owned_if (ℕ_discrete e i) (λ _. K) (H.made i below);
    unmade = λ i above. ground (arith, H.unmade e, H.unmade i);
  }

  closed :
      (b : Bool)
      → (w : World X) → (b ≡ false → w.shutdown ≡ false)
      → (if b then Threads.shut_down X w else w).shutdown ≡ b
  unfolding Threads.shut_down
  closed true w h = refl
  closed false w h = h refl

  keep-Accounted :
      {owners : ℕ → ℕ}
      → {cells : ℕ → Cell X} → {next : ℕ} → (e : ℕ) → (w : World X) → Accounted owners cells next
      → w.shutdown ≡ (cells e).world.shutdown
      → Accounted owners (update cells e (record (cells e) { world = w })) next
  keep-Accounted {cells} e w H q = record {
    made = λ i below. owned_same e i cells w q (ℕ_discrete e i) (H.made i below);
    unmade = H.unmade;
  }

  share-Accounted :
      {owners : ℕ → ℕ}
      → (p : Process X) → (e : ℕ) → Accounted owners p.cells p.next_cell
      → 0 < owners e
      → Accounted (update owners e (owners e + 1)) (share X e p).cells p.next_cell
  share-Accounted {owners} p e H h =
      let K = H.made e (ground (arith, H.unmade e)) in
      update-Accounted e H h
        (record { counts = ap (λ n. n + 1) K.counts; flag = ground (arith, K.flag) })

  grow-Accounted :
      {owners : ℕ → ℕ}
      → {cells : ℕ → Cell X} → {next : ℕ} → {c : Cell X} → Accounted owners cells next
      → Owned 1 c
      → Accounted (update owners next 1) (update cells next c) (next + 1)
  grow-Accounted {owners} {cells} {next} H K = record {
    made = λ i below. owned_new next i (ℕ_discrete next i) K (λ q. H.made i (omega arith));
    unmade = λ i above. ground (arith, H.unmade i);
  }

  Lifetime-Accounted :
      {owners : ℕ → ℕ} → {p : Process X} → Lifetime owners p → Accounted owners p.cells p.next_cell
  unfolding Runtime.new Threads.new Runtime.clone Handle.handle Handle.clone Runtime.spawn
      Executor.spawn Executor.spawn_internal Runtime.release Threads.shut_down
  Lifetime-Accounted (begin p h) = record {
    made = λ e below. absurd (omega arith);
    unmade = λ e above. refl;
  }
  Lifetime-Accounted (makes r available) =
      grow-Accounted (Lifetime-Accounted r)
        (record { counts = refl; flag = start_workers-shutdown (num_workers available) 0 [] _ })
  Lifetime-Accounted (clones {p} r rt h) = share-Accounted p rt.executor (Lifetime-Accounted r) h
  Lifetime-Accounted (handles {p} r rt h) = share-Accounted p rt.executor (Lifetime-Accounted r) h
  Lifetime-Accounted (copies {p} r k h) = share-Accounted p k.executor (Lifetime-Accounted r) h
  Lifetime-Accounted (spawns r rt f) = keep-Accounted rt.executor _ (Lifetime-Accounted r) refl
  Lifetime-Accounted (works r e w h) = keep-Accounted e w (Lifetime-Accounted r) h
  Lifetime-Accounted {owners} (releases {p} r e h) =
      let H = Lifetime-Accounted r in
      let K = H.made e (ground (arith, H.unmade e)) in
      update-Accounted e H h (record {
        counts = ap (λ n. n - 1) K.counts;
        flag = closed _ _ (λ q. K.flag ∙ ground (arith, h)) ∙ ap (λ n. n - 1 == 0) K.counts;
      })

  -- In a process that makes, clones and drops runtimes and handles, and spawns, an executor that was
  -- made has as many strong counts as owners, and the flag of its shutdown is raised just if it has
  -- no owner left, whatever its threads do, as long as they leave the flag.
  pub Lifetime-shutdown :
      {owners : ℕ → ℕ}
      → {p : Process X} → Lifetime owners p
      → (e : ℕ) → e < p.next_cell
      → ((p.cells e).strong ≡ owners e) × ((p.cells e).world.shutdown ≡ (owners e == 0))
  Lifetime-shutdown r e below = let K = (Lifetime-Accounted r).made e below in (K.counts, K.flag)
