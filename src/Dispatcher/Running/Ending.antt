-- ===== src/Dispatcher/Running/Ending.antt =====
-- Every schedule of `Run` ends, as long as someone receives the dead letters.
use mathlib.Core.List.{append_assoc}
use go_learning.Common.{
  ℕ, zero, suc, ◌+◌, ◌<◌, ◌≤◌, List, [], ◌∷◌, ◌++◌, Option, none, some, true, false, All, length,
  ◌*◌, ◌-◌, ltb, num_comparable, ◌≡◌, ◌⊎◌, refl, sym, ap, ◌∙◌, inl, inr, arith, Bool-cases,
}
use go_learning.Common.Int.{pos_part}
use go_learning.GoErrors.{Err}
use go_learning.Dispatcher.{Settings, rounds_of}
use go_learning.Dispatcher.Running.{
  Phase, selecting, sending, backing, exhausted, offering, returned, Shared, Running, at_attempt,
  WorkerStep, take_next, input_closed, select_canceled, wait_over, wait_canceled, send_succeeds,
  send_fails, count_exhausted, offer, offer_canceled, HasReturned, RunStep, by_worker, read_dead,
  cancel_context, close_dead, all_selecting, run_start, RunsTo, begin, go,
}
use go_learning.Pipeline.Ending.{left_if}
use go_learning.Dispatcher.Running.Kept.{tally, tally-at}

times_suc : (c m t : ℕ) → t < m → c * (m - t) ≡ c + c * (m - suc t)
times_suc c m t lt = let e : m - t ≡ suc (m - suc t) = omega arith in rw e (grind arith)

module _ (send : ℕ → ℕ → Option Err) (n rounds : ℕ) where
  -- How many steps a phase is away from the select, and one more.
  abbrev cost : Phase → ℕ
  cost selecting = 1
  cost (sending i a) = 5 + 2 * (rounds - suc a)
  cost (backing i a) = 6 + 2 * (rounds - suc a)
  cost (exhausted i) = 4
  cost (offering i) = 3
  cost returned = 0

  abbrev per_notification : ℕ
  per_notification = 6 + 2 * rounds

  cost-at_attempt : (i a : ℕ) → cost (at_attempt rounds i (suc a)) ≤ 4 + 2 * (rounds - suc a)
  cost-at_attempt i a = elim (Bool-cases (ltb (suc a) rounds)) [
    | inl lt ↦ rw lt (ground arith)
    | inr ge ↦ rw ge (omega arith)
  ]

  cost-first : (i : ℕ) → cost (at_attempt rounds i 0) ≤ 5 + 2 * rounds
  cost-first i = elim (Bool-cases (ltb 0 rounds)) [
    | inl lt ↦ rw lt (omega arith)
    | inr ge ↦ rw ge (omega arith)
  ]

  abbrev ahead : Shared → ℕ
  ahead x = per_notification * (n - x.taken) + (length x.dead - x.read) + left_if x.cancelled

  WorkerStep-less :
      {x y : Shared} {p q : Phase}
      → WorkerStep send n rounds x p y q
      → suc (cost q + ahead y) ≤ cost p + ahead x
  WorkerStep-less {x} (take_next lt) =
      let c = cost-first x.taken in let h = times_suc per_notification n x.taken lt in omega arith
  WorkerStep-less (input_closed e) = omega arith
  WorkerStep-less (select_canceled c) = omega arith
  WorkerStep-less (wait_over i a) = omega arith
  WorkerStep-less (wait_canceled i a c) = omega arith
  WorkerStep-less (send_succeeds i a ok) = omega arith
  WorkerStep-less (send_fails i a err fails) = let c = cost-at_attempt i a in omega arith
  WorkerStep-less (count_exhausted i) = omega arith
  WorkerStep-less (offer i room) = omega arith
  WorkerStep-less (offer_canceled i c) = omega arith

  abbrev left : Running → ℕ
  left s = tally cost s.workers + ahead s.shared + left_if s.closed

  RunStep-less : {s t : Running} → RunStep send n rounds s t → suc (left t) ≤ left s
  RunStep-less {s} (by_worker ps qs p x q e step) =
      let before : tally cost s.workers ≡ cost p + tally cost (ps ++ qs) =
        ap (tally cost) e ∙ tally-at cost ps qs p in
      let after = tally-at cost ps qs q in let less = WorkerStep-less step in omega arith
  RunStep-less {s} (read_dead more) = omega arith
  RunStep-less {s} (close_dead on all) = let c = ap left_if on in omega arith

  abbrev pub CanRun : Running → Type 0
  CanRun s = (t : Running) × RunStep send n rounds s t

  worker_can :
      (s : Running) (ps qs : List Phase) (p : Phase)
      → s.workers ≡ ps ++ p ∷ qs
      → s.shared.taken ≤ n
      → CanRun s ⊎ HasReturned p
  worker_can s ps qs selecting e le = elim (Bool-cases (ltb s.shared.taken n)) [
    | inl lt ↦ inl (_, by_worker {s = s} ps qs _ _ _ e (take_next {x = s.shared} (ground arith)))
    | inr ge ↦ inl (_, by_worker {s = s} ps qs _ _ _ e (input_closed {x = s.shared} (ground arith)))
  ]
  worker_can s ps qs (sending i a) e le = answered (send i a) refl
    where
      answered : (o : Option Err) → send i a ≡ o → CanRun s ⊎ HasReturned (sending i a)
      answered none ok =
          inl (_, by_worker {s = s} ps qs _ _ _ e (send_succeeds {x = s.shared} i a ok))
      answered (some err) fails =
          inl (_, by_worker {s = s} ps qs _ _ _ e (send_fails {x = s.shared} i a err fails))
  worker_can s ps qs (backing i a) e le =
      inl (_, by_worker {s = s} ps qs _ _ _ e (wait_over {x = s.shared} i a))
  worker_can s ps qs (exhausted i) e le =
      inl (_, by_worker {s = s} ps qs _ _ _ e (count_exhausted {x = s.shared} i))
  worker_can s ps qs (offering i) e le =
      elim (Bool-cases (ltb (length s.shared.dead) (s.shared.read + 64))) [
        | inl room ↦
            inl (_, by_worker {s = s} ps qs _ _ _ e (offer {x = s.shared} i (ground arith)))
        | inr full ↦ inl (_, read_dead {s = s} (ground arith))
      ]
  worker_can s ps qs returned e le = inr tt

  look :
      (s : Running) (ps qs : List Phase)
      → s.workers ≡ ps ++ qs
      → s.shared.taken ≤ n
      → CanRun s ⊎ All HasReturned qs
  look s ps [] e le = inr tt
  look s ps (q ∷ qs) e le = elim (worker_can s ps qs q e le) [
    | inl can ↦ inl can
    | inr one ↦ elim (look s (ps ++ q ∷ []) qs (e ∙ sym (append_assoc ps (q ∷ []) qs)) le) [
      | inl can ↦ inl can
      | inr all ↦ inr (one, all)
    ]
  ]

  can_run : (s : Running) → s.shared.taken ≤ n → s.closed ≡ false → CanRun s
  can_run s le on = elim (look s [] s.workers refl le) [
    | inl can ↦ can
    | inr all ↦ (_, close_dead {s = s} on all)
  ]

  WorkerStep-taken :
      {x y : Shared} {p q : Phase} → WorkerStep send n rounds x p y q → x.taken ≤ n → y.taken ≤ n
  WorkerStep-taken (take_next lt) h = lt
  WorkerStep-taken (input_closed e) h = h
  WorkerStep-taken (select_canceled c) h = h
  WorkerStep-taken (wait_over i a) h = h
  WorkerStep-taken (wait_canceled i a c) h = h
  WorkerStep-taken (send_succeeds i a ok) h = h
  WorkerStep-taken (send_fails i a err fails) h = h
  WorkerStep-taken (count_exhausted i) h = h
  WorkerStep-taken (offer i room) h = h
  WorkerStep-taken (offer_canceled i c) h = h

  RunStep-taken :
      {s t : Running} → RunStep send n rounds s t → s.shared.taken ≤ n → t.shared.taken ≤ n
  RunStep-taken (by_worker ps qs p x q e step) h = WorkerStep-taken step h
  RunStep-taken (read_dead more) h = h
  RunStep-taken (close_dead on all) h = h

  cost_of_all : (w : ℕ) → tally cost (all_selecting w) ≡ w
  cost_of_all zero = refl
  cost_of_all (suc w) = omega (arith, cost_of_all w)

module _ (d : Settings) (send : ℕ → ℕ → Option Err) (n : ℕ) where
  RunsTo-left :
      {k : ℕ} {s : Running}
      → RunsTo d send n k s
      → k + left send n (rounds_of d.max_attempts) s
        ≤ (6 + 2 * rounds_of d.max_attempts) * n + pos_part d.workers + 2
  unfolding run_start
  RunsTo-left begin =
      let w : tally (cost send n (rounds_of d.max_attempts)) (all_selecting (pos_part d.workers))
          ≡ pos_part d.workers =
        cost_of_all send n (rounds_of d.max_attempts) (pos_part d.workers) in
      let c : (6 + 2 * rounds_of d.max_attempts) * (n - 0)
          ≡ (6 + 2 * rounds_of d.max_attempts) * n =
        ap (λ m. (6 + 2 * rounds_of d.max_attempts) * m) (omega arith) in
      omega arith
  RunsTo-left (go r step) =
      omega (arith, RunsTo-left r, RunStep-less send n (rounds_of d.max_attempts) step)
  RunsTo-left (cancel_context r on) = let c = ap left_if on in omega (arith, RunsTo-left r)

  RunsTo-taken : {k : ℕ} {s : Running} → RunsTo d send n k s → s.shared.taken ≤ n
  unfolding run_start
  RunsTo-taken begin = omega arith
  RunsTo-taken (go r step) = RunStep-taken send n (rounds_of d.max_attempts) step (RunsTo-taken r)
  RunsTo-taken (cancel_context r on) = RunsTo-taken r

  -- `Run` ends: with `in` closed after `n` notifications, a schedule of the workers, the reader of the
  -- dead letters and the caller has at most `2 * maxAttempts + 6` steps for each notification, one for
  -- each worker, and two more; and until the dead-letter channel is closed, a worker, the reader or
  -- the closing of the channel can take a step, whether the caller cancels its context or not. `Send`
  -- is taken to return. When that channel is full, the step is the reader's.
  pub run_terminates :
      (k : ℕ) (s : Running)
      → RunsTo d send n k s
      → (k ≤ (6 + 2 * rounds_of d.max_attempts) * n + pos_part d.workers + 2)
        × ((s.closed ≡ true) ⊎ ((t : Running) × RunStep send n (rounds_of d.max_attempts) s t))
  run_terminates k s r = (
    omega (arith, RunsTo-left r),
    elim (Bool-cases s.closed) [
      | inl c ↦ inl c
      | inr on ↦ inr (can_run send n (rounds_of d.max_attempts) s (RunsTo-taken r) on)
    ],
  )
