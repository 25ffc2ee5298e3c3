-- ===== src/Dispatcher/Tests.antt =====
-- m03-concurrency/solution-dispatcher/dispatcher.go: the theorems at concrete runs.
use go_learning.Common.{
  ℕ, ◌+◌, ◌*◌, ◌%◌, ◌≤◌, [], ◌∷◌, Option, none, some, true, false, Bool, ltb, length, if◌then◌else◌,
  ◌≡◌, ◌⊎◌, refl, arith,
}
use go_learning.Common.Int.{pos, word, pos_part}
use go_learning.GoErrors.{str, text, Err}
use go_learning.Pipeline.Accounting.{times}
use go_learning.Dispatcher.{Notification, Settings, State, Course, process, rounds_of}
use go_learning.Dispatcher.Ends.{Ends}
use go_learning.Dispatcher.Laws.{process-Ends}
use go_learning.Dispatcher.Running.{
  Phase, selecting, sending, exhausted, offering, returned, Shared, Running, nothing_done,
  take_next, input_closed, send_fails, count_exhausted, offer, RunStep, by_worker, close_dead,
  RunsTo, begin, go, run_start, at_attempt, with_failed, with_dead_lettered,
}
use go_learning.Dispatcher.Running.Kept.{SentAt, FailedBefore}
use go_learning.Dispatcher.Running.Settled.{run_settles}
use go_learning.Dispatcher.Running.Processing.{Processing, back, step, course_of, Agrees}
use go_learning.Dispatcher.Running.Refines.{processing-process}
use go_learning.Dispatcher.Running.Ending.{run_terminates}

abbrev settings : Settings
settings = record { workers = pos 4; max_attempts = pos 3; base_backoff = pos 5000000 }

-- The first two sends fail.
abbrev third_works : Course
third_works = record {
  answers = λ k. if ltb k 2 then some (text (str "smtp down")) else none;
  cancelled = λ k. false;
  dropped = false;
}

abbrev welcome : Notification
welcome = record { id = str "n1"; customer_id = str "c1"; channel = str "email"; body = str "Hi" }

abbrev start : State
start = record {
  metrics = record { sent = 0; failed = 0; dead_lettered = 0 };
  dead = [];
  waits = [];
}

process-Ends_example :
    Ends third_works welcome 0 3 start (process settings third_works welcome start)
process-Ends_example = process-Ends settings third_works welcome start (omega arith)

abbrev one_try : Settings
one_try = record { workers = pos 1; max_attempts = pos 1; base_backoff = pos 5000000 }

abbrev down : ℕ → ℕ → Option Err
down i a = some (text (str "smtp down"))

abbrev one_taken : Shared
one_taken = record nothing_done { taken = 1 }

abbrev one_failed : Shared
one_failed = record one_taken { metrics = with_failed one_taken.metrics }

abbrev one_counted : Shared
one_counted = record one_failed { metrics = with_dead_lettered one_failed.metrics }

abbrev one_dead : Shared
one_dead = record one_counted { dead = 0 ∷ [] }

abbrev with_worker : Shared → Phase → Running
with_worker x p = record { shared = x; workers = p ∷ []; closed = false }

abbrev all_over : Running
all_over = record (with_worker one_dead returned) { closed = true }

-- One worker, one notification, which the sender refuses at the only attempt.
all_over-RunsTo : RunsTo one_try down 1 6 all_over
unfolding run_start
all_over-RunsTo =
    let t1 : RunsTo one_try down 1 1 (with_worker one_taken (sending 0 0)) = go begin (
      by_worker {s = with_worker nothing_done selecting} [] [] selecting one_taken (sending 0 0)
        refl (take_next {x = nothing_done} (omega arith))) in
    let t2 : RunsTo one_try down 1 2 (with_worker one_failed (exhausted 0)) = go t1 (
      by_worker {s = with_worker one_taken (sending 0 0)} [] [] (sending 0 0) one_failed
        (exhausted 0) refl (send_fails {x = one_taken} 0 0 (text (str "smtp down")) refl)) in
    let t3 : RunsTo one_try down 1 3 (with_worker one_counted (offering 0)) = go t2 (
      by_worker {s = with_worker one_failed (exhausted 0)} [] [] (exhausted 0) one_counted
        (offering 0) refl (count_exhausted {x = one_failed} 0)) in
    let t4 : RunsTo one_try down 1 4 (with_worker one_dead selecting) = go t3 (
      by_worker {s = with_worker one_counted (offering 0)} [] [] (offering 0) one_dead selecting
        refl (offer {x = one_counted} 0 (omega arith))) in
    let t5 : RunsTo one_try down 1 5 (with_worker one_dead returned) = go t4 (
      by_worker {s = with_worker one_dead selecting} [] [] selecting one_dead returned refl
        (input_closed {x = one_dead} refl)) in
    go t5 (close_dead {s = with_worker one_dead returned} refl (tt, tt))

run_settles_example :
    (((times 0 all_over.shared.sent ≡ 1) × (times 0 all_over.shared.dead ≡ 0) × SentAt down 1 0)
      ⊎ ((times 0 all_over.shared.sent ≡ 0)
          × (times 0 all_over.shared.dead ≡ 1)
          × FailedBefore down 1 0 1))
    × (all_over.shared.metrics.sent ≡ length all_over.shared.sent % word)
    × (all_over.shared.metrics.dead_lettered ≡ length all_over.shared.dead % word)
    × (length all_over.shared.sent + length all_over.shared.dead ≡ 1)
run_settles_example =
    run_settles one_try down 1 6 all_over 0 all_over-RunsTo refl refl (omega arith) (omega arith)

run_terminates_example :
    (6 ≤ (6 + 2 * rounds_of one_try.max_attempts) * 1 + pos_part one_try.workers + 2)
    × ((all_over.closed ≡ true)
        ⊎ ((t : Running) × RunStep down 1 (rounds_of one_try.max_attempts) all_over t))
run_terminates_example = run_terminates one_try down 1 6 all_over all_over-RunsTo

abbrev welcome_steps : Processing down 1 1 one_taken (at_attempt 1 0 0) one_dead
welcome_steps = step tt (send_fails {x = one_taken} 0 0 (text (str "smtp down")) refl) (
    step tt (count_exhausted {x = one_failed} 0)
      (step tt (offer {x = one_counted} 0 (omega arith)) back))

processing-process_example :
    (stop : Option ℕ) × (dropped : Bool) × Agrees welcome 0 one_taken one_dead start
      (process one_try (course_of (down 0) stop dropped) welcome start)
processing-process_example =
    processing-process one_try down 1 welcome 0 one_taken one_dead start welcome_steps refl
