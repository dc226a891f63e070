-- ===== src/Worker/NoStd.antt =====
-- The version of `run` in src/runtime/worker.rs without std, which does not pause.
use luminal.Prelude.{ℕ, zero, suc, ◌≡◌, ◌∙◌, refl, ap, Bool, true, false, if◌then◌else◌}
use luminal.Crossbeam.{Crossbeam}
use luminal.Task.{Task}
use luminal.Task.Poll.{Outcome, returned, panicked}
use luminal.World.{World}
use luminal.Worker.{
  WorkerThread, Loop, ends, unwound, no_fuel, Pass, stops, continues, drain, steal_work, stolen,
  drained, pass, after_pass, run, drop_self,
}

module _ {V : Type 0} (X : Crossbeam (Task V) V) where
  -- Whether work was found is read by nothing after the search.
  abbrev pub searched : Outcome Bool × World X → Loop Bool × World X
  searched (returned found_work, w) = (ends false, w)
  searched (panicked, w) = (unwound, w)

  abbrev pub emptied : WorkerThread → Loop Bool × World X → Loop Bool × World X
  emptied me (ends true, w) = (ends false, w)
  emptied me (ends false, w) = searched (steal_work X me w)
  emptied me (unwound, w) = (unwound, w)
  emptied me (no_fuel, w) = (no_fuel, w)

  -- A pass of the loop, which says whether it breaks.
  unfoldable pub pass_no_std : ℕ → WorkerThread → World X → Loop Bool × World X
  pass_no_std fuel me w =
      if w.shutdown then (ends true, w) else emptied me (drain X fuel me.worker false w)

  abbrev pub after_pass_no_std :
      WorkerThread
      → Loop Bool × World X
      → (World X → Loop (Unit {0}) × World X)
      → Loop (Unit {0}) × World X
  after_pass_no_std me (ends true, w) rest = (ends tt, drop_self X me w)
  after_pass_no_std me (ends false, w) rest = rest w
  after_pass_no_std me (unwound, w) rest = (unwound, drop_self X me w)
  after_pass_no_std me (no_fuel, w) rest = (no_fuel, w)

  unfoldable pub run_no_std : ℕ → ℕ → WorkerThread → World X → Loop (Unit {0}) × World X
  run_no_std zero fuel me w = (no_fuel, w)
  run_no_std (suc n) fuel me w =
      let rest : World X → Loop (Unit {0}) × World X = run_no_std n fuel me in
      after_pass_no_std me (pass_no_std fuel me w) rest

  -- A pass without its idle count and its pause.
  abbrev plain : Loop Pass × World X → Loop Bool × World X
  plain (ends stops, w) = (ends true, w)
  plain (ends (continues _ _), w) = (ends false, w)
  plain (unwound, w) = (unwound, w)
  plain (no_fuel, w) = (no_fuel, w)

  stolen-plain : (idle : ℕ) (r : Outcome Bool × World X) → plain (stolen X idle r) ≡ searched r
  stolen-plain idle (returned true, w) = refl
  stolen-plain idle (returned false, w) = refl
  stolen-plain idle (panicked, w) = refl

  drained-plain :
      (me : WorkerThread) (idle : ℕ) (r : Loop Bool × World X)
      → plain (drained X me idle r) ≡ emptied me r
  drained-plain me idle (ends true, w) = refl
  drained-plain me idle (ends false, w) = stolen-plain idle (steal_work X me w)
  drained-plain me idle (unwound, w) = refl
  drained-plain me idle (no_fuel, w) = refl

  flag-plain :
      (b : Bool) (me : WorkerThread) (idle : ℕ) (r : Loop Bool × World X) (w : World X)
      → plain (if b then (ends stops, w) else drained X me idle r)
        ≡ (if b then (ends true, w) else emptied me r)
  flag-plain true me idle r w = refl
  flag-plain false me idle r w = drained-plain me idle r

  after_pass-plain :
      (me : WorkerThread) (r : Loop Pass × World X) (rest : ℕ → World X → Loop (Unit {0}) × World X)
      → (rest' : World X → Loop (Unit {0}) × World X)
      → ((idle : ℕ) (w : World X) → rest idle w ≡ rest' w)
      → after_pass X me r rest ≡ after_pass_no_std me (plain r) rest'
  after_pass-plain me (ends stops, w) rest rest' same = refl
  after_pass-plain me (ends (continues idle p), w) rest rest' same = same idle w
  after_pass-plain me (unwound, w) rest rest' same = refl
  after_pass-plain me (no_fuel, w) rest rest' same = refl

  -- The two versions of `run` do the same to the executor and end in the same way, on any fuel: the
  -- idle count, with which the version with std starts and paces its pauses, does not matter.
  pub run-run_no_std :
      (n fuel : ℕ) (me : WorkerThread) (idle : ℕ) (w : World X)
      → run X n fuel me idle w ≡ run_no_std n fuel me w
  unfolding run run_no_std pass pass_no_std
  run-run_no_std zero fuel me idle w = refl
  run-run_no_std (suc n) fuel me idle w =
      after_pass-plain me (pass X fuel me idle w) (run X n fuel me) (run_no_std n fuel me)
        (run-run_no_std n fuel me)
      ∙ ap (λ r. after_pass_no_std me r (run_no_std n fuel me))
          (flag-plain w.shutdown me idle (drain X fuel me.worker false w) w)
