-- ===== src/Pipeline/Tests.antt =====
-- m03-concurrency/solution-pipeline: the theorem at a concrete run, and a run that the caller cancels.
use go_learning.Common.{
  ℕ, ◌+◌, ◌<◌, [], ◌∷◌, some, true, ◌≡◌, ◌⊎◌, refl, arith, ◌≤◌, ◌*◌, List, length, false,
  num_comparable,
}
use go_learning.Common.GoMap.{lookup}
use go_learning.Common.Int.{pos}
use go_learning.GoErrors.{Err, Result, ok, err}
use go_learning.Pipeline.{
  Step, goroutines, State, start, feed, all_fed, succeed, receive, stop_feeding, cancel_parent,
  Reaches, started, next, outcome, IsFinished,
}
use go_learning.Pipeline.Outcome.{run_outcome}
use go_learning.Pipeline.Ending.{Runs, begin, go, run_ends}
use go_learning.Pipeline.Merge.{
  Forwarder, ranging, sending, returned, Merging, merge, MergeStep, take_value, end_of_channel,
  send_value, close_out, Merges,
}
use go_learning.Pipeline.Merge.Ending.{total}
use go_learning.Pipeline.Merge.Order.{Shuffle, merge_shuffles}

abbrev work : ℕ → Result ℕ
work i = ok (i + 10)

abbrev one_done : State ℕ
one_done = record start { fed = 1; closed = true; results = (0, 10) ∷ [] }

one_done-Reaches : Reaches work 1 2 one_done
one_done-Reaches =
    next
      (next
        (next (next started (feed {s = start} (omega arith) refl (omega arith)))
          (succeed {s = record start { fed = 1; busy = 0 ∷ [] }} [] [] 0 10 refl refl))
        (receive {s = record start { fed = 1; ready = (0, 10) ∷ [] }} [] [] 0 10 refl))
      (all_fed {s = record start { fed = 1; results = (0, 10) ∷ [] }} refl refl)

run_outcome_example :
    ((e : Err) × (j : ℕ) × (j < 1) × (work j ≡ err e) × (outcome one_done ≡ err e))
    ⊎ ((x : ℕ) × (outcome one_done ≡ ok one_done.results)
        × (lookup 0 one_done.results ≡ some x)
        × (work 0 ≡ ok x))
run_outcome_example =
    run_outcome work 1 2 one_done 0 one_done-Reaches (refl, refl, refl) refl (omega arith)

abbrev abandoned : State ℕ
abandoned = record start { closed = true; cancelled = true; parent = true }

-- The caller cancels before anything is fed: all goroutines return, and so does `Run`, with no result
-- for its item and no error.
abandoned-outcome : Reaches work 1 2 abandoned × IsFinished abandoned × (outcome abandoned ≡ ok [])
abandoned-outcome = (
  next (cancel_parent {s = start} started refl)
      (stop_feeding {s = record start { cancelled = true; parent = true }} refl refl),
  (refl, refl, refl),
  refl,
)

abbrev first_busy : State ℕ
first_busy = record start { fed = 1; busy = 0 ∷ [] }

one_fed : Runs work 1 (pos 0) 1 first_busy
unfolding goroutines
one_fed = go begin (feed {s = start} (omega arith) refl (omega arith))

run_ends_example :
    (1 ≤ 3 * 1 + 2)
    × (IsFinished first_busy ⊎ ((t : State ℕ) × Step work 1 (goroutines (pos 0)) first_busy t))
run_ends_example = run_ends work 1 (pos 0) 1 first_busy one_fed

abbrev chans : List (List ℕ)
chans = (1 ∷ []) ∷ (2 ∷ []) ∷ []

abbrev merging : Forwarder ℕ → Forwarder ℕ → List ℕ → Merging ℕ
merging f g out = record { forwarders = f ∷ g ∷ []; out = out; closed = false }

abbrev merged : Merging ℕ
merged = record (merging returned returned (2 ∷ 1 ∷ [])) { closed = true }

-- The second channel is served first.
merged-Merges : Merges chans 7 merged
unfolding merge
merged-Merges =
    let f : Forwarder ℕ = ranging (1 ∷ []) in
    let r : Forwarder ℕ = ranging [] in
    let t1 =
      Merges.go Merges.begin
        (take_value {s = merging f (ranging (2 ∷ [])) []} (f ∷ []) [] 2 [] refl) in
    let t2 = Merges.go t1 (send_value {s = merging f (sending 2 []) []} (f ∷ []) [] 2 [] refl) in
    let t3 = Merges.go t2 (take_value {s = merging f r (2 ∷ [])} [] (r ∷ []) 1 [] refl) in
    let t4 =
      Merges.go t3 (send_value {s = merging (sending 1 []) r (2 ∷ [])} [] (r ∷ []) 1 [] refl) in
    let t5 = Merges.go t4 (end_of_channel {s = merging r r (2 ∷ 1 ∷ [])} [] (r ∷ []) refl) in
    let t6 =
      Merges.go t5 (end_of_channel {s = merging returned r (2 ∷ 1 ∷ [])} (returned ∷ []) [] refl) in
    Merges.go t6 (close_out {s = merging returned returned (2 ∷ 1 ∷ [])} refl (tt, (tt, tt)))

merge_shuffles_example :
    (7 ≤ 2 * total chans + length chans + 1)
    × (((merged.closed ≡ true) × Shuffle chans merged.out) ⊎ ((t : Merging ℕ) × MergeStep merged t))
merge_shuffles_example = merge_shuffles chans 7 merged merged-Merges
