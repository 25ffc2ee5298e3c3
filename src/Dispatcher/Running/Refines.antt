-- ===== src/Dispatcher/Running/Refines.antt =====
-- The steps of a worker against `process`.
use go_learning.Common.{ℕ, suc, Option, Bool, ◌≡◌, refl, sym, ap, inl, inr, arith}
use go_learning.GoErrors.{Err}
use go_learning.Dispatcher.{Notification, Settings, State, rounds_of, process}
use go_learning.Dispatcher.Running.{
  Phase, Shared, at_attempt, WorkerStep, take_next, input_closed, select_canceled, wait_over,
  wait_canceled, send_succeeds, send_fails, count_exhausted, offer, offer_canceled,
}
use go_learning.Dispatcher.Running.Processing.{
  IsBusy, Processing, back, step, course_of, Agrees, Loops, Does,
}
use go_learning.Dispatcher.Running.Rounds.{
  Sends-Loops, stops-Loops, ok-Sends, fails-Sends, exhausted-Loops, at_attempt-Loops,
}

module _ (d : Settings) (send : ℕ → ℕ → Option Err) (n : ℕ) (note : Notification) where
  WorkerStep-Does :
      (z : Shared) {x y : Shared} {p q : Phase}
      → IsBusy p
      → WorkerStep send n (rounds_of d.max_attempts) x p y q
      → Does d send n note q y z
      → Does d send n note p x z
  WorkerStep-Does z busy (take_next lt) h = absurd busy
  WorkerStep-Does z busy (input_closed e) h = absurd busy
  WorkerStep-Does z busy (select_canceled c) h = absurd busy
  WorkerStep-Does z {x} {y} busy (wait_over i a) h =
      λ m e le. Sends-Loops d send n note i a m x z (h m e)
  WorkerStep-Does z {x} {y} busy (wait_canceled i a c) h = λ m e le.
      stops-Loops d send n note i a m x z le (ap (λ (u : Shared). u.metrics) (sym h))
        (ap (λ (u : Shared). u.dead) (sym h))
  WorkerStep-Does z {x} {y} busy (send_succeeds i a ok) h = λ m e.
      ok-Sends d send n note i a m x z ok (ap (λ (u : Shared). u.metrics) (sym h))
        (ap (λ (u : Shared). u.dead) (sym h))
  WorkerStep-Does z {x} {y} busy (send_fails i a err fails) h = λ m e.
      fails-Sends d send n note i a m x y z err fails refl refl
        (at_attempt-Loops d send n note i (suc a) m y z (omega arith) h)
  WorkerStep-Does z {x} {y} busy (count_exhausted i) h =
      λ a. exhausted-Loops d send n note i a x y z refl refl h
  WorkerStep-Does z {x} {y} busy (offer i room) h =
      (ap (λ (u : Shared). u.metrics) (sym h), inr (ap (λ (u : Shared). u.dead) (sym h)))
  WorkerStep-Does z {x} {y} busy (offer_canceled i c) h =
      (ap (λ (u : Shared). u.metrics) (sym h), inl (ap (λ (u : Shared). u.dead) (sym h)))

  Processing-Does :
      {x y : Shared} {p : Phase}
      → Processing send n (rounds_of d.max_attempts) x p y
      → Does d send n note p x y
  Processing-Does back = refl
  Processing-Does (step busy one rest) = WorkerStep-Does _ busy one (Processing-Does rest)

  -- The steps of a worker refine `process`: when an undisturbed worker starts on a notification and
  -- comes back to its select, there is a course of `process`, with the same answers of the sender and
  -- some point at which the context ends or none, that leads to the same counters from the same
  -- counters, and adds the notification to the dead letters just when the worker did.
  pub processing-process :
      (i : ℕ) (x y : Shared) (s : State)
      → Processing send n (rounds_of d.max_attempts) x (at_attempt (rounds_of d.max_attempts) i 0) y
      → s.metrics ≡ x.metrics
      → (stop : Option ℕ) × (dropped : Bool) × Agrees note i x y s
          (process d (course_of (send i) stop dropped) note s)
  unfolding Loops process
  processing-process i x y s path same =
      let (stop, dropped, late, agrees) =
        at_attempt-Loops d send n note i 0 (rounds_of d.max_attempts) x y (omega arith)
          (Processing-Does path) s same in
      (stop, dropped, agrees)
