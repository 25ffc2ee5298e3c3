-- ===== src/Dispatcher/Running/Settled.antt =====
-- What `Run` has done with each notification when it returns.
use go_learning.Common.{
  ℕ, ◌+◌, ◌<◌, ◌≤◌, ◌%◌, List, [], ◌∷◌, Option, true, false, All, length, nat_eq, num_comparable,
  ◌≡◌, ◌⊎◌, refl, ap, subst, inl, inr, arith, Bool-cases,
}
use go_learning.Common.Int.{word, pos_part}
use go_learning.GoErrors.{Err}
use go_learning.Pipeline.Accounting.{times}
use go_learning.Dispatcher.{Settings, rounds_of}
use go_learning.Dispatcher.Running.{
  Phase, selecting, sending, backing, exhausted, offering, returned, Running, HasReturned, RunsTo,
}
use go_learning.Dispatcher.Running.Kept.{
  holding, tally, holds, counts_dead, IsWorking, FailedBefore, SentAt, Gone,
}
use go_learning.Dispatcher.Running.Invariant.{Inv, RunsTo-Inv}

All-found : (P : ℕ → Type 0) (i : ℕ) (xs : List ℕ) → All P xs → 1 ≤ times i xs → P i
All-found P i [] h le = absurd (omega arith)
All-found P i (x ∷ xs) (h, hs) le = elim (Bool-cases (nat_eq x i)) [
  | inl same ↦ subst P (ground arith) h
  | inr other ↦ All-found P i xs hs (ground arith)
]

tally-none :
    (f : Phase → ℕ) → f returned ≡ 0 → (ps : List Phase) → All HasReturned ps → tally f ps ≡ 0
tally-none f h [] all = refl
tally-none f h (returned ∷ ps) (here, all) = omega (arith, h, tally-none f h ps all)
tally-none f h (selecting ∷ ps) (here, all) = absurd here
tally-none f h (sending i a ∷ ps) (here, all) = absurd here
tally-none f h (backing i a ∷ ps) (here, all) = absurd here
tally-none f h (exhausted i ∷ ps) (here, all) = absurd here
tally-none f h (offering i ∷ ps) (here, all) = absurd here

none_working : (ps : List Phase) → 1 ≤ length ps → All HasReturned ps → All IsWorking ps → ⊥
none_working [] le gone on = omega arith
none_working (returned ∷ ps) le gone (here, on) = here
none_working (selecting ∷ ps) le (here, gone) on = here
none_working (sending i a ∷ ps) le (here, gone) on = here
none_working (backing i a ∷ ps) le (here, gone) on = here
none_working (exhausted i ∷ ps) le (here, gone) on = here
none_working (offering i ∷ ps) le (here, gone) on = here

-- With one worker or more and a context that is not cancelled: once `Run` has closed the dead-letter
-- channel, each notification that `in` yielded was either sent, once, at an attempt below
-- `maxAttempts` that follows failed ones only, and is no dead letter; or it was not sent, all its
-- attempts failed, and it went into the dead-letter channel, once. The counters of sent and of
-- dead-lettered notifications are the numbers of these, as 64-bit counters, and the numbers add up to
-- that of the notifications. The order in which the workers, the reader of the dead letters and the
-- caller take their steps does not matter.
pub run_settles :
    (d : Settings) (send : ℕ → ℕ → Option Err) (n k : ℕ) (s : Running) (i : ℕ)
    → RunsTo d send n k s
    → s.closed ≡ true
    → s.shared.cancelled ≡ false
    → 1 ≤ pos_part d.workers
    → i < n
    → (((times i s.shared.sent ≡ 1)
          × (times i s.shared.dead ≡ 0)
          × SentAt send (rounds_of d.max_attempts) i)
        ⊎ ((times i s.shared.sent ≡ 0)
            × (times i s.shared.dead ≡ 1)
            × FailedBefore send (rounds_of d.max_attempts) i (rounds_of d.max_attempts)))
      × (s.shared.metrics.sent ≡ length s.shared.sent % word)
      × (s.shared.metrics.dead_lettered ≡ length s.shared.dead % word)
      × (length s.shared.sent + length s.shared.dead ≡ n)
run_settles d send n k s i r closed on workers lt = (
  by_place (Bool-cases (nat_eq (times i s.shared.sent) 0)),
  v.sent_counted,
  let h = v.dead_counted in
      let c = tally-none counts_dead refl s.workers gone in
      let l = ap length quiet.0 in omega arith,
  let h = v.conserved in
      let c = tally-none holding refl s.workers gone in
      let l = ap length quiet.0 in let m = ap length quiet.1 in let t = all_taken in omega arith,
)
  where
    v : Inv d send n s
    v = RunsTo-Inv d send n r

    gone : All HasReturned s.workers
    gone = elim v.closing [ inl unclosed ↦ absurd (cc) | inr all ↦ all ]

    quiet : (s.shared.dropped ≡ []) × (s.shared.stopped ≡ [])
    quiet = elim v.whole [ inl h ↦ h | inr c ↦ absurd (cc) ]

    all_taken : s.shared.taken ≡ n
    all_taken = elim v.going [
      | inl working ↦ let h = v.size in absurd (none_working s.workers (omega arith) gone working)
      | inr (inl e) ↦ e
      | inr (inr c) ↦ absurd (cc)
    ]

    in_one_place : times i s.shared.sent + times i s.shared.dead ≡ 1
    in_one_place =
        let a = v.settled_once i in
        let b = tally-none (holds i) refl s.workers gone in
        let c = ap (times i) quiet.0 in
        let e = ap (times i) quiet.1 in let t = all_taken in ground arith

    rounds : ℕ
    rounds = rounds_of d.max_attempts

    by_place :
        (nat_eq (times i s.shared.sent) 0 ≡ true) ⊎ (nat_eq (times i s.shared.sent) 0 ≡ false)
        → ((times i s.shared.sent ≡ 1)
            × (times i s.shared.dead ≡ 0)
            × SentAt send (rounds_of d.max_attempts) i)
          ⊎ ((times i s.shared.sent ≡ 0)
              × (times i s.shared.dead ≡ 1)
              × FailedBefore send (rounds_of d.max_attempts) i (rounds_of d.max_attempts))
    by_place (inr sent) =
        let one = in_one_place in
        let there : times i s.shared.sent ≡ 1 = ground arith in
        inl (
          there,
          omega arith,
          All-found (SentAt send (rounds_of d.max_attempts)) i s.shared.sent v.right.0
              (omega arith),
        )
    by_place (inl unsent) =
        let one = in_one_place in
        let absent : times i s.shared.sent ≡ 0 = ground arith in
        inr (
          absent,
          omega arith,
          All-found (Gone send (rounds_of d.max_attempts)) i s.shared.dead v.right.1 (omega arith),
        )
