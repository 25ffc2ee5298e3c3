-- ===== src/Pipeline.antt =====
-- m03-concurrency/solution-pipeline/pipeline.go: `Run`, as the steps of its goroutines in any order.
-- `work i` is what `work(ctx, items[i])` returns; `n` is the number of items. The step relation leaves
-- out how long a step takes and which of two ready cases a select takes.
pub mod Accounting
pub mod Outcome
pub mod Kept
pub mod Ending
pub mod Merge
mod Tests
use go_learning.Common.{
  ℕ, zero, suc, ◌+◌, ◌<◌, List, [], ◌∷◌, ◌++◌, Option, none, some, Bool, true, false, length, ltb,
  num_comparable, ◌≡◌, if◌then◌else◌,
}
use go_learning.Common.Int.{ℤ, pos, pos_part, ltb_ℤ}
use go_learning.GoErrors.{Err, or_else, Result, ok, err}

-- `workers`, after its first test.
unfoldable pub at_least_one_worker : ℤ → ℤ
at_least_one_worker workers = if ltb_ℤ workers (pos 1) then pos 1 else workers

-- How many goroutines the loop over `workers` starts.
unfoldable pub goroutines : ℤ → ℕ
unfolding at_least_one_worker
goroutines workers = pos_part (at_least_one_worker workers)

-- `fed` items were taken by workers, of which `busy` are in `work`; `ready` wait to be received and
-- `results` were, the latest first; `lost` are the items whose worker returned without a result.
-- `parent` says that the caller's context was cancelled, `failed` is what `errCh` holds.
pub record State (R : Type 0) : Type 0 where
  pub fed : ℕ
  pub closed : Bool
  pub busy : List ℕ
  pub ready : List (ℕ × R)
  pub results : List (ℕ × R)
  pub lost : List ℕ
  pub cancelled : Bool
  pub parent : Bool
  pub failed : Option Err

abbrev pub start : {R : Type 0} → State R
start = record {
  fed = 0;
  closed = false;
  busy = [];
  ready = [];
  results = [];
  lost = [];
  cancelled = false;
  parent = false;
  failed = none;
}

module _ {R : Type 0} (work : ℕ → Result R) (n workers : ℕ) where
  pub data Step : State R → State R → Type 0 where
    -- A worker that neither works nor waits takes the next item.
    feed :
        {s : State R}
        → s.fed < n
        → s.closed ≡ false
        → length s.busy + length s.ready + length s.lost < workers
        → Step s (record s { fed = suc s.fed; busy = s.fed ∷ s.busy })
    -- The feeder ends after the last item, or by the cancelled context.
    all_fed : {s : State R} → s.closed ≡ false → s.fed ≡ n → Step s (record s { closed = true })
    stop_feeding :
        {s : State R} → s.closed ≡ false → s.cancelled ≡ true → Step s (record s { closed = true })
    -- `work` returns a value, or an error, which stays if it is the first; that one cancels at once.
    succeed :
        {s : State R} (xs ys : List ℕ) (i : ℕ) (v : R)
        → s.busy ≡ xs ++ i ∷ ys
        → work i ≡ ok v
        → Step s (record s { busy = xs ++ ys; ready = (i, v) ∷ s.ready })
    fail :
        {s : State R} (xs ys : List ℕ) (i : ℕ) (e : Err)
        → s.busy ≡ xs ++ i ∷ ys
        → work i ≡ err e
        → Step s (record s {
          busy = xs ++ ys;
          lost = i ∷ s.lost;
          cancelled = true;
          failed = or_else s.failed (some e);
        })
    -- The result is received, or its worker finds the context cancelled.
    receive :
        {s : State R} (xs ys : List (ℕ × R)) (i : ℕ) (v : R)
        → s.ready ≡ xs ++ (i, v) ∷ ys
        → Step s (record s { ready = xs ++ ys; results = (i, v) ∷ s.results })
    give_up :
        {s : State R} (xs ys : List (ℕ × R)) (i : ℕ) (v : R)
        → s.cancelled ≡ true
        → s.ready ≡ xs ++ (i, v) ∷ ys
        → Step s (record s { ready = xs ++ ys; lost = i ∷ s.lost })

  -- The caller may cancel its context, which is no step of `Run`'s goroutines.
  pub data Reaches : State R → Type 0 where
    started : Reaches start
    next : {s t : State R} → Reaches s → Step s t → Reaches t
    cancel_parent :
        {s : State R}
        → Reaches s
        → s.parent ≡ false
        → Reaches (record s { cancelled = true; parent = true })

-- Every goroutine has returned.
abbrev pub IsFinished : {R : Type 0} → State R → Type 0
IsFinished s = (s.closed ≡ true) × (s.busy ≡ []) × (s.ready ≡ [])

-- What `Run` returns then: the results by index, or the first error.
abbrev pub outcome : {R : Type 0} → State R → Result (List (ℕ × R))
outcome s = elim s.failed [ none ↦ ok s.results | some e ↦ err e ]
