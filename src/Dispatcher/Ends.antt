-- ===== src/Dispatcher/Ends.antt =====
-- How the processing of a notification can end, and what the counters say then.
use go_learning.Common.{
  ℕ, zero, suc, ◌+◌, ◌<◌, ◌%◌, [], ◌∷◌, ◌++◌, none, true, false, if◌then◌else◌, ◌≡◌, ◌≢◌, ◌⊎◌,
  arith,
}
use go_learning.Common.Int.{word}
use go_learning.Dispatcher.{Notification, Metrics, State, Course, bump, stopped}

-- `m` attempts from `a` on were all made, and all failed.
abbrev pub AllFailed : Course → ℕ → ℕ → Type 0
AllFailed c a zero = Unit
AllFailed c a (suc m) = (c.answers a ≢ none) × (stopped c a ≡ false) × AllFailed c (suc a) m

-- The metrics after `k` failed sends.
abbrev pub failures : ℕ → Metrics → Metrics
failures k m = record {
  sent = m.sent;
  failed = (m.failed + k) % word;
  dead_lettered = m.dead_lettered;
}

abbrev pub sent_after : ℕ → Metrics → Metrics
sent_after k m = record (failures k m) { sent = bump m.sent }

abbrev pub dead_after : ℕ → Metrics → Metrics
dead_after k m = record (failures k m) { dead_lettered = bump m.dead_lettered }

-- After `k` failures the send succeeded.
abbrev pub Delivered : Course → ℕ → ℕ → State → State → Type 0
Delivered c a m s s' =
    (k : ℕ) × (k < m)
    × AllFailed c a k
    × (c.answers (a + k) ≡ none)
    × (stopped c (a + k) ≡ false)
    × (s'.metrics ≡ sent_after k s.metrics)
    × (s'.dead ≡ s.dead)

-- Every send failed, and the notification went to the dead letters, unless the context ended while
-- it waited for room there.
abbrev pub Exhausted : Course → Notification → ℕ → ℕ → State → State → Type 0
Exhausted c n a m s s' =
    AllFailed c a m
    × (s'.metrics ≡ dead_after m s.metrics)
    × (s'.dead ≡ (if c.dropped then s.dead else s.dead ++ n ∷ []))

-- The context ended after `k` failures.
abbrev pub Interrupted : Course → ℕ → ℕ → State → State → Type 0
Interrupted c a m s s' =
    (k : ℕ) × (k < m)
    × AllFailed c a k
    × (stopped c (a + k) ≡ true)
    × (s'.metrics ≡ failures k s.metrics)
    × (s'.dead ≡ s.dead)

abbrev pub Ends : Course → Notification → ℕ → ℕ → State → State → Type 0
Ends c n a m s s' = Delivered c a m s s' ⊎ (Exhausted c n a m s s' ⊎ Interrupted c a m s s')

pub bump_add : (f k : ℕ) → (bump f + k) % word ≡ (f + suc k) % word
bump_add f k = omega arith

abbrev pub sent_once : Metrics → Metrics
sent_once m = record m { sent = bump m.sent }

abbrev pub failed_once : Metrics → Metrics
failed_once m = record m { failed = bump m.failed }

pub failures-bump : (k : ℕ) (m : Metrics) → failures k (failed_once m) ≡ failures (suc k) m
failures-bump k m =
    λ i. record { sent = m.sent; failed = bump_add m.failed k i; dead_lettered = m.dead_lettered }

pub sent_after-bump : (k : ℕ) (m : Metrics) → sent_after k (failed_once m) ≡ sent_after (suc k) m
sent_after-bump k m = λ i. record {
  sent = bump m.sent;
  failed = bump_add m.failed k i;
  dead_lettered = m.dead_lettered;
}

pub dead_after-bump : (k : ℕ) (m : Metrics) → dead_after k (failed_once m) ≡ dead_after (suc k) m
dead_after-bump k m = λ i. record {
  sent = m.sent;
  failed = bump_add m.failed k i;
  dead_lettered = bump m.dead_lettered;
}

-- A counter below 2^64 is its own remainder.
pub same_mod : (f : ℕ) → f < word → f ≡ (f + 0) % word
same_mod f h = omega arith
