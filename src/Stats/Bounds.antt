-- ===== src/Stats/Bounds.antt =====
-- The numbers of a summary are those of the values.
use go_learning.Common.{
  List, [], ◌∷◌, Bool, true, false, length, All, ◌≡◌, ◌⊎◌, refl, inl, inr, arith, Bool-cases,
  if◌then◌else◌,
}
use go_learning.Common.Int.{ℤ, pos, ltb_ℤ, ◌≤ℤ◌}
use go_learning.GoErrors.{Result, ok, err, sentinel, stats_empty}
use go_learning.Stats.{Summary, update, summarize_from, summarize}

abbrev pub Among : ℤ → List ℤ → Type 0
Among z [] = ⊥
Among z (x ∷ xs) = (z ≡ x) ⊎ Among z xs

lower : (x m : ℤ) → ((if ltb_ℤ x m then x else m) ≤ℤ x) × ((if ltb_ℤ x m then x else m) ≤ℤ m)
lower x m = elim (Bool-cases (ltb_ℤ x m)) [
  | inl lt ↦ rw lt (omega arith, ground arith)
  | inr ge ↦ rw ge (ground arith, omega arith)
]

≤ℤ-trans : (a b c : ℤ) → a ≤ℤ b → b ≤ℤ c → a ≤ℤ c
≤ℤ-trans a b c h k = omega arith

≤ℤ-refl : (a : ℤ) → a ≤ℤ a
≤ℤ-refl a = omega arith

upper : (x m : ℤ) → (x ≤ℤ (if ltb_ℤ m x then x else m)) × (m ≤ℤ (if ltb_ℤ m x then x else m))
upper x m = elim (Bool-cases (ltb_ℤ m x)) [
  | inl lt ↦ rw lt (omega arith, ground arith)
  | inr ge ↦ rw ge (ground arith, omega arith)
]

-- `z` is the first of two, or among the others.
FromEither : ℤ → ℤ → List ℤ → Type 0
FromEither z m xs = (z ≡ m) ⊎ Among z xs

from_update :
    (b : Bool) (z x m : ℤ) (xs : List ℤ)
    → FromEither z (if b then x else m) xs
    → FromEither z m (x ∷ xs)
unfolding FromEither
from_update true z x m xs (inl e) = inr (inl e)
from_update false z x m xs (inl e) = inl e
from_update b z x m xs (inr among) = inr (inr among)

record Bounded (s r : Summary) (xs : List ℤ) : Type 0 where
  count_kept : r.count ≡ s.count
  below : All (λ y. r.min ≤ℤ y) xs
  min_le : r.min ≤ℤ s.min
  min_from : FromEither r.min s.min xs
  above : All (λ y. y ≤ℤ r.max) xs
  le_max : s.max ≤ℤ r.max
  max_from : FromEither r.max s.max xs

summarize_from-Bounded : (s : Summary) (xs : List ℤ) → Bounded s (summarize_from s xs) xs
unfolding summarize_from FromEither
summarize_from-Bounded s [] = record {
  count_kept = refl;
  below = tt;
  min_le = ≤ℤ-refl s.min;
  min_from = inl refl;
  above = tt;
  le_max = ≤ℤ-refl s.max;
  max_from = inl refl;
}
summarize_from-Bounded s (x ∷ xs) =
    let r = summarize_from (update s x) xs in
    let ih = summarize_from-Bounded (update s x) xs in
    record {
      count_kept = ih.count_kept;
      below = (≤ℤ-trans r.min (update s x).min x ih.min_le (lower x s.min).0, ih.below);
      min_le = ≤ℤ-trans r.min (update s x).min s.min ih.min_le (lower x s.min).1;
      min_from = from_update (ltb_ℤ x s.min) r.min x s.min xs ih.min_from;
      above = (≤ℤ-trans x (update s x).max r.max (upper x s.max).0 ih.le_max, ih.above);
      le_max = ≤ℤ-trans s.max (update s x).max r.max (upper x s.max).1 ih.le_max;
      max_from = from_update (ltb_ℤ s.max x) r.max x s.max xs ih.max_from;
    }

-- What a summary says of the values.
abbrev pub Summarizes : List ℤ → Result Summary → Type 0
Summarizes [] out = out ≡ err (sentinel stats_empty)
Summarizes (x ∷ xs) out =
    (r : Summary) × (out ≡ ok r)
    × (r.count ≡ pos (length (x ∷ xs)))
    × (All (λ y. r.min ≤ℤ y) (x ∷ xs) × Among r.min (x ∷ xs))
    × (All (λ y. y ≤ℤ r.max) (x ∷ xs) × Among r.max (x ∷ xs))

FromEither-Among : (z x : ℤ) (xs : List ℤ) → FromEither z x (x ∷ xs) → Among z (x ∷ xs)
unfolding FromEither
FromEither-Among z x xs (inl e) = inl e
FromEither-Among z x xs (inr among) = among

-- `Summarize` fails with ErrEmpty for no values; otherwise it counts them, and its minimum and
-- maximum are values of the list that bound all of them.
pub summarize-Summarizes : (xs : List ℤ) → Summarizes xs (summarize xs)
unfolding summarize
summarize-Summarizes [] = refl
summarize-Summarizes (x ∷ xs) =
    let s : Summary = record { count = pos (length (x ∷ xs)); sum = pos 0; min = x; max = x } in
    let b = summarize_from-Bounded s (x ∷ xs) in
    (
      summarize_from s (x ∷ xs),
      refl,
      b.count_kept,
      (b.below, FromEither-Among _ x xs b.min_from),
      (b.above, FromEither-Among _ x xs b.max_from),
    )
