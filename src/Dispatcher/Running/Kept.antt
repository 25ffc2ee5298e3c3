-- ===== src/Dispatcher/Running/Kept.antt =====
-- What each step of `Run` keeps: the predicates, and lemmas on the list of workers.
use go_learning.Common.{
  length, ℕ, zero, suc, ◌+◌, ◌<◌, List, [], ◌∷◌, ◌++◌, Option, none, true, All, nat_eq, ltb,
  num_comparable, ◌≡◌, ◌≢◌, ◌⊎◌, refl, arith, if◌then◌else◌,
}
use go_learning.GoErrors.{Err}
use go_learning.Pipeline.Accounting.{times}
use go_learning.Dispatcher.Running.{
  Phase, selecting, sending, backing, exhausted, offering, returned, Shared,
}

-- A sum over the workers.
abbrev pub tally : (Phase → ℕ) → List Phase → ℕ
tally f [] = 0
tally f (p ∷ ps) = f p + tally f ps

pub tally-at :
    (f : Phase → ℕ) (ps qs : List Phase) (p : Phase)
    → tally f (ps ++ p ∷ qs) ≡ f p + tally f (ps ++ qs)
tally-at f [] qs p = refl
tally-at f (r ∷ ps) qs p = omega (arith, tally-at f ps qs p)

pub All-at :
    (P : Phase → Type 0) (ps qs : List Phase) (p : Phase)
    → All P (ps ++ p ∷ qs)
    → P p × All P (ps ++ qs)
All-at P [] qs p (h, hs) = (h, hs)
All-at P (r ∷ ps) qs p (h, hs) = let (here, rest) = All-at P ps qs p hs in (here, (h, rest))

pub All-put :
    (P : Phase → Type 0) (ps qs : List Phase) (q : Phase)
    → P q
    → All P (ps ++ qs)
    → All P (ps ++ q ∷ qs)
All-put P [] qs q h hs = (h, hs)
All-put P (r ∷ ps) qs q h (here, rest) = (here, All-put P ps qs q h rest)

-- The notification that a worker has.
abbrev pub holds : ℕ → Phase → ℕ
holds j selecting = 0
holds j (sending i a) = if nat_eq i j then 1 else 0
holds j (backing i a) = if nat_eq i j then 1 else 0
holds j (exhausted i) = if nat_eq i j then 1 else 0
holds j (offering i) = if nat_eq i j then 1 else 0
holds j returned = 0

abbrev pub settled : ℕ → Shared → ℕ
settled j x = times j x.sent + (times j x.dead + (times j x.dropped + times j x.stopped))

-- The notifications that a worker has, and those that are settled.
abbrev pub holding : Phase → ℕ
holding selecting = 0
holding (sending i a) = 1
holding (backing i a) = 1
holding (exhausted i) = 1
holding (offering i) = 1
holding returned = 0

abbrev pub amount : Shared → ℕ
amount x = length x.sent + length x.dead + (length x.dropped + length x.stopped)

abbrev pub arrived : ℕ → ℕ → ℕ
arrived j taken = if ltb j taken then 1 else 0

abbrev pub counts_dead : Phase → ℕ
counts_dead selecting = 0
counts_dead (sending i a) = 0
counts_dead (backing i a) = 0
counts_dead (exhausted i) = 0
counts_dead (offering i) = 1
counts_dead returned = 0

abbrev pub IsWorking : Phase → Type 0
IsWorking selecting = Unit
IsWorking (sending i a) = Unit
IsWorking (backing i a) = Unit
IsWorking (exhausted i) = Unit
IsWorking (offering i) = Unit
IsWorking returned = ⊥

abbrev pub Ended : ℕ → Shared → Type 0
Ended n x = (x.taken ≡ n) ⊎ (x.cancelled ≡ true)

abbrev pub Whole : Shared → Type 0
Whole x = ((x.dropped ≡ []) × (x.stopped ≡ [])) ⊎ (x.cancelled ≡ true)

module _ (send : ℕ → ℕ → Option Err) (rounds : ℕ) where
  -- The first `a` attempts at a notification failed.
  abbrev pub FailedBefore : ℕ → ℕ → Type 0
  FailedBefore i zero = Unit
  FailedBefore i (suc a) = (send i a ≢ none) × FailedBefore i a

  -- It was sent at an attempt below the limit, after all earlier ones failed.
  abbrev pub SentAt : ℕ → Type 0
  SentAt i = (a : ℕ) × (a < rounds) × (send i a ≡ none) × FailedBefore i a

  abbrev pub Gone : ℕ → Type 0
  Gone i = FailedBefore i rounds

  abbrev pub IsRight : Phase → Type 0
  IsRight selecting = Unit
  IsRight (sending i a) = (a < rounds) × FailedBefore i a
  IsRight (backing i a) = (a < rounds) × FailedBefore i a
  IsRight (exhausted i) = Gone i
  IsRight (offering i) = Gone i
  IsRight returned = Unit

  -- Those that were sent, and those in the dead-letter channel.
  abbrev pub AllRight : Shared → Type 0
  AllRight x = All SentAt x.sent × All Gone x.dead
