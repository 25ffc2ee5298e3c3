-- ===== src/Dispatcher/Running/Worker.antt =====
-- One step of one worker, and what it keeps.
use go_learning.Common.{
  ℕ, zero, suc, ◌+◌, ◌<◌, ◌≤◌, ◌%◌, Option, none, some, length, nat_eq, ltb, num_comparable, ◌≡◌,
  ◌⊎◌, refl, sym, ◌∙◌, subst, inl, inr, arith, Bool-cases, if◌then◌else◌,
}
use go_learning.Common.Int.{word}
use go_learning.GoErrors.{Err}
use go_learning.Dispatcher.Running.{
  Phase, sending, backing, exhausted, Shared, round_of, at_attempt, WorkerStep, take_next,
  input_closed, select_canceled, wait_over, wait_canceled, send_succeeds, send_fails,
  count_exhausted, offer, offer_canceled, HasReturned,
}
use go_learning.Dispatcher.Running.Kept.{
  holding, amount, holds, settled, arrived, counts_dead, IsWorking, Ended, Whole, FailedBefore,
  IsRight, AllRight,
}

-- The three forms of the head of the loop.
attempt_cases :
    (P : Phase → Type 0) (rounds i a : ℕ)
    → P (sending i 0)
    → P (backing i a)
    → P (exhausted i)
    → P (at_attempt rounds i a)
attempt_cases P rounds i zero s b e = elim (Bool-cases (ltb 0 rounds)) [
  | inl lt ↦ rw lt s
  | inr ge ↦ rw ge e
]
attempt_cases P rounds i (suc a) s b e = elim (Bool-cases (ltb (suc a) rounds)) [
  | inl lt ↦ rw lt b
  | inr ge ↦ rw ge e
]

holds-at_attempt :
    (j rounds i a : ℕ) → holds j (at_attempt rounds i a) ≡ (if nat_eq i j then 1 else 0)
holds-at_attempt j rounds i a =
    attempt_cases (λ p. holds j p ≡ (if nat_eq i j then 1 else 0)) rounds i a refl refl refl

holding-at_attempt : (rounds i a : ℕ) → holding (at_attempt rounds i a) ≡ 1
holding-at_attempt rounds i a = attempt_cases (λ p. holding p ≡ 1) rounds i a refl refl refl

counts_dead-at_attempt : (rounds i a : ℕ) → counts_dead (at_attempt rounds i a) ≡ 0
counts_dead-at_attempt rounds i a = attempt_cases (λ p. counts_dead p ≡ 0) rounds i a refl refl refl

at_attempt-IsRight :
    (send : ℕ → ℕ → Option Err) (rounds i a : ℕ)
    → a ≤ rounds
    → FailedBefore send rounds i a
    → IsRight send rounds (at_attempt rounds i a)
at_attempt-IsRight send rounds i a le h = elim (Bool-cases (ltb a rounds)) [
  | inl lt ↦ rw lt (round a (ground arith) h)
  | inr ge ↦ let e : a ≡ rounds = ground arith in rw ge (subst (FailedBefore send rounds i) e h)
]
  where
    round : (b : ℕ) → b < rounds → FailedBefore send rounds i b → IsRight send rounds (round_of i b)
    round zero lt f = (lt, f)
    round (suc b) lt f = (lt, f)

module _ {send : ℕ → ℕ → Option Err} {n rounds : ℕ} where
  pub Step-settled :
      (j : ℕ) {x y : Shared} {p q : Phase}
      → WorkerStep send n rounds x p y q
      → settled j y + (holds j q + arrived j x.taken)
        ≡ settled j x + (holds j p + arrived j y.taken)
  Step-settled j {x} (take_next lt) = let h = holds-at_attempt j rounds x.taken 0 in ground arith
  Step-settled j {x} (input_closed e) = refl
  Step-settled j {x} (select_canceled c) = refl
  Step-settled j {x} (wait_over i a) = refl
  Step-settled j {x} (wait_canceled i a c) = ground arith
  Step-settled j {x} (send_succeeds i a ok) = ground arith
  Step-settled j {x} (send_fails i a err fails) =
      let h = holds-at_attempt j rounds i (suc a) in ground arith
  Step-settled j {x} (count_exhausted i) = refl
  Step-settled j {x} (offer i room) = ground arith
  Step-settled j {x} (offer_canceled i c) = ground arith

  pub Step-amount :
      {x y : Shared} {p q : Phase}
      → WorkerStep send n rounds x p y q
      → amount y + (holding q + x.taken) ≡ amount x + (holding p + y.taken)
  Step-amount {x} (take_next lt) = let h = holding-at_attempt rounds x.taken 0 in omega arith
  Step-amount (input_closed e) = refl
  Step-amount (select_canceled c) = refl
  Step-amount (wait_over i a) = refl
  Step-amount (wait_canceled i a c) = omega arith
  Step-amount (send_succeeds i a ok) = omega arith
  Step-amount (send_fails i a err fails) =
      let h = holding-at_attempt rounds i (suc a) in omega arith
  Step-amount (count_exhausted i) = refl
  Step-amount (offer i room) = omega arith
  Step-amount (offer_canceled i c) = omega arith

  pub Step-sent :
      {x y : Shared} {p q : Phase}
      → WorkerStep send n rounds x p y q
      → x.metrics.sent ≡ length x.sent % word
      → y.metrics.sent ≡ length y.sent % word
  Step-sent (take_next lt) h = h
  Step-sent (input_closed e) h = h
  Step-sent (select_canceled c) h = h
  Step-sent (wait_over i a) h = h
  Step-sent (wait_canceled i a c) h = h
  Step-sent (send_succeeds i a ok) h = omega arith
  Step-sent (send_fails i a err fails) h = h
  Step-sent (count_exhausted i) h = h
  Step-sent (offer i room) h = h
  Step-sent (offer_canceled i c) h = h

  pub Step-dead_lettered :
      (rest : ℕ) {x y : Shared} {p q : Phase}
      → WorkerStep send n rounds x p y q
      → x.metrics.dead_lettered ≡ (length x.dead + length x.dropped + (counts_dead p + rest)) % word
      → y.metrics.dead_lettered ≡ (length y.dead + length y.dropped + (counts_dead q + rest)) % word
  Step-dead_lettered rest {x} (take_next lt) h = rw (counts_dead-at_attempt rounds x.taken 0) h
  Step-dead_lettered rest (input_closed e) h = h
  Step-dead_lettered rest (select_canceled c) h = h
  Step-dead_lettered rest (wait_over i a) h = h
  Step-dead_lettered rest (wait_canceled i a c) h = h
  Step-dead_lettered rest (send_succeeds i a ok) h = h
  Step-dead_lettered rest {x} (send_fails i a err fails) h =
      rw (counts_dead-at_attempt rounds i (suc a)) h
  Step-dead_lettered rest (count_exhausted i) h = omega arith
  Step-dead_lettered rest (offer i room) h = omega arith
  Step-dead_lettered rest (offer_canceled i c) h = omega arith

  pub Step-IsRight :
      {x y : Shared} {p q : Phase}
      → WorkerStep send n rounds x p y q
      → AllRight send rounds x
      → IsRight send rounds p
      → AllRight send rounds y × IsRight send rounds q
  Step-IsRight {x} (take_next lt) h r =
      (h, at_attempt-IsRight send rounds x.taken 0 (omega arith) tt)
  Step-IsRight (input_closed e) h r = (h, tt)
  Step-IsRight (select_canceled c) h r = (h, tt)
  Step-IsRight (wait_over i a) h r = (h, r)
  Step-IsRight (wait_canceled i a c) h r = (h, tt)
  Step-IsRight (send_succeeds i a ok) (s, d) (lt, f) = ((((a, lt, ok, f), s), d), tt)
  Step-IsRight (send_fails i a err fails) h (lt, f) =
      (h, at_attempt-IsRight send rounds i (suc a) lt ((λ none_eq. clash (sym fails ∙ none_eq)), f))
    where
      clash : some err ≡ none → ⊥
      clash e = cc
  Step-IsRight (count_exhausted i) h r = (h, r)
  Step-IsRight (offer i room) (s, d) r = ((s, (r, d)), tt)
  Step-IsRight (offer_canceled i c) h r = (h, tt)

  pub Step-Whole :
      {x y : Shared} {p q : Phase} → WorkerStep send n rounds x p y q → Whole x → Whole y
  Step-Whole (take_next lt) h = h
  Step-Whole (input_closed e) h = h
  Step-Whole (select_canceled c) h = h
  Step-Whole (wait_over i a) h = h
  Step-Whole (wait_canceled i a c) h = inr c
  Step-Whole (send_succeeds i a ok) h = h
  Step-Whole (send_fails i a err fails) h = h
  Step-Whole (count_exhausted i) h = h
  Step-Whole (offer i room) h = h
  Step-Whole (offer_canceled i c) h = inr c

  -- A worker goes on, or it returns because the input or the context has ended.
  pub Step-IsWorking :
      {x y : Shared} {p q : Phase} → WorkerStep send n rounds x p y q → IsWorking q ⊎ Ended n y
  Step-IsWorking {x} (take_next lt) = inl (attempt_cases IsWorking rounds x.taken 0 tt tt tt)
  Step-IsWorking (input_closed e) = inr (inl e)
  Step-IsWorking (select_canceled c) = inr (inr c)
  Step-IsWorking (wait_over i a) = inl tt
  Step-IsWorking (wait_canceled i a c) = inl tt
  Step-IsWorking (send_succeeds i a ok) = inl tt
  Step-IsWorking (send_fails i a err fails) =
      inl (attempt_cases IsWorking rounds i (suc a) tt tt tt)
  Step-IsWorking (count_exhausted i) = inl tt
  Step-IsWorking (offer i room) = inl tt
  Step-IsWorking (offer_canceled i c) = inl tt

  pub Step-Ended :
      {x y : Shared} {p q : Phase} → WorkerStep send n rounds x p y q → Ended n x → Ended n y
  Step-Ended (take_next lt) (inl e) = absurd (omega arith)
  Step-Ended (take_next lt) (inr c) = inr c
  Step-Ended (input_closed e) h = h
  Step-Ended (select_canceled c) h = h
  Step-Ended (wait_over i a) h = h
  Step-Ended (wait_canceled i a c) h = h
  Step-Ended (send_succeeds i a ok) h = h
  Step-Ended (send_fails i a err fails) h = h
  Step-Ended (count_exhausted i) h = h
  Step-Ended (offer i room) h = h
  Step-Ended (offer_canceled i c) h = h

  pub Step-gone :
      {x y : Shared} {p q : Phase} → WorkerStep send n rounds x p y q → HasReturned p → ⊥
  Step-gone (take_next lt) h = h
  Step-gone (input_closed e) h = h
  Step-gone (select_canceled c) h = h
  Step-gone (wait_over i a) h = h
  Step-gone (wait_canceled i a c) h = h
  Step-gone (send_succeeds i a ok) h = h
  Step-gone (send_fails i a err fails) h = h
  Step-gone (count_exhausted i) h = h
  Step-gone (offer i room) h = h
  Step-gone (offer_canceled i c) h = h
