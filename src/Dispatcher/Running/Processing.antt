-- ===== src/Dispatcher/Running/Processing.antt =====
-- What one worker does with a notification until it is back at its select, phase by phase, against
-- the loop of `process`.
use go_learning.Common.{
  ℕ, suc, ◌+◌, ◌≤◌, [], ◌∷◌, ◌++◌, Option, none, some, Bool, false, nat_eq, ◌≡◌, ◌⊎◌,
}
use go_learning.GoErrors.{Err}
use go_learning.Dispatcher.{
  Notification, Settings, State, Course, count_failed, sent_or, attempts, rounds_of,
}
use go_learning.Dispatcher.Running.{
  Phase, selecting, sending, backing, exhausted, offering, returned, Shared, WorkerStep,
}

abbrev pub IsBusy : Phase → Type 0
IsBusy selecting = ⊥
IsBusy (sending i a) = Unit
IsBusy (backing i a) = Unit
IsBusy (exhausted i) = Unit
IsBusy (offering i) = Unit
IsBusy returned = ⊥

-- The steps of a worker, undisturbed, until it is back at its select.
pub data Processing (send : ℕ → ℕ → Option Err) (n rounds : ℕ)
    : Shared → Phase → Shared → Type 0 where
  back : {x : Shared} → Processing send n rounds x selecting x
  step :
      {x y z : Shared} {p q : Phase}
      → IsBusy p
      → WorkerStep send n rounds x p y q
      → Processing send n rounds y q z
      → Processing send n rounds x p z

abbrev pub is_at : Option ℕ → ℕ → Bool
is_at none k = false
is_at (some j) k = nat_eq j k

-- The course in which the sender answers as `send` does for the notification, and the context ends
-- before the attempt that `stop` names, or while the dead letter is offered.
abbrev pub course_of : (ℕ → Option Err) → Option ℕ → Bool → Course
course_of answers stop dropped = record {
  answers = answers;
  cancelled = is_at stop;
  dropped = dropped;
}

-- The two ends have the same counters; and either no dead letter was added in both, or it was in both.
abbrev pub Agrees : Notification → ℕ → Shared → Shared → State → State → Type 0
Agrees note i x y s t =
    (y.metrics ≡ t.metrics)
    × (((y.dead ≡ x.dead) × (t.dead ≡ s.dead))
        ⊎ ((y.dead ≡ i ∷ x.dead) × (t.dead ≡ s.dead ++ note ∷ [])))

abbrev pub Late : ℕ → Option ℕ → Type 0
Late a none = Unit
Late a (some j) = a ≤ j

module _ (d : Settings) (send : ℕ → ℕ → Option Err) (n : ℕ) (note : Notification) where
  abbrev pub rounds : ℕ
  rounds = rounds_of d.max_attempts

  abbrev pub tries : Course → ℕ → ℕ → State → State
  tries c m a s = attempts d.base_backoff c note m a s

  -- The loop from attempt `a` on, with `m` attempts left.
  unfoldable pub Loops : ℕ → ℕ → ℕ → Shared → Shared → Type 0
  Loops i a m x y =
      (s : State)
      → s.metrics ≡ x.metrics
      → (stop : Option ℕ) × (dropped : Bool) × Late a stop
        × Agrees note i x y s (tries (course_of (send i) stop dropped) m a s)

  -- The loop from the send of attempt `a` on.
  unfoldable pub Sends : ℕ → ℕ → ℕ → Shared → Shared → Type 0
  Sends i a m x y =
      (s : State)
      → s.metrics ≡ x.metrics
      → (stop : Option ℕ) × (dropped : Bool) × Late (suc a) stop
        × Agrees note i x y s (
            sent_or s (send i a)
              (tries (course_of (send i) stop dropped) m (suc a) (count_failed s)))

  abbrev pub Does : Phase → Shared → Shared → Type 0
  Does selecting x y = x ≡ y
  Does (sending i a) x y = (m : ℕ) → a + suc m ≡ rounds → Sends i a m x y
  Does (backing i a) x y = (m : ℕ) → a + suc m ≡ rounds → 1 ≤ a → Loops i a (suc m) x y
  Does (exhausted i) x y = (a : ℕ) → Loops i a 0 x y
  Does (offering i) x y = (y.metrics ≡ x.metrics) × ((y.dead ≡ x.dead) ⊎ (y.dead ≡ i ∷ x.dead))
  Does returned x y = Unit
