-- ===== src/Decimal/RoundTrip.antt =====
-- Printed numbers read back, so different numbers print differently.
use go_learning.Common.{
  ℕ, zero, suc, ◌+◌, ◌-◌, ◌*◌, ◌/◌, ◌%◌, ◌≤◌, ◌<◌, [], ◌∷◌, ◌++◌, some, true, Bytes, length, ltb,
  ◌≡◌, refl, sym, ap, ◌∙◌, arith, inl, inr, Bool-cases, length-append,
}
use go_learning.Common.Int.{pos, max_int64}
use go_learning.Decimal.{
  decimal_from, decimal, zeros, padded, value_from, all_digits, digits_value, atoi,
}

value_from-append :
    (acc : ℕ) (ds es : Bytes) → value_from acc (ds ++ es) ≡ value_from (value_from acc ds) es
unfolding value_from
value_from-append acc [] es = refl
value_from-append acc (d ∷ ds) es = value_from-append (acc * 10 + (d - 48)) ds es

value_from-decimal_from : (fuel n : ℕ) → n < fuel → value_from 0 (decimal_from fuel n) ≡ n
unfolding decimal_from value_from
value_from-decimal_from zero n h = elim h [ ]
value_from-decimal_from (suc fuel) n h = elim (Bool-cases (ltb n 10)) [
  | inl small ↦ rw small (omega arith)
  | inr large ↦ rw large (
      value_from-append 0 (decimal_from fuel (n / 10)) ((48 + n % 10) ∷ [])
      ∙ last (value_from-decimal_from fuel (n / 10) (ground arith)))
]
  where
    last :
        value_from 0 (decimal_from fuel (n / 10)) ≡ n / 10
        → value_from (value_from 0 (decimal_from fuel (n / 10))) ((48 + n % 10) ∷ []) ≡ n
    last e = rw e (omega arith)

pub value_from-decimal : (n : ℕ) → value_from 0 (decimal n) ≡ n
unfolding decimal
value_from-decimal n = value_from-decimal_from (suc n) n (omega arith)

value_from-zeros : (k : ℕ) (ds : Bytes) → value_from 0 (zeros k ++ ds) ≡ value_from 0 ds
unfolding value_from
value_from-zeros zero ds = refl
value_from-zeros (suc k) ds = value_from-zeros k ds

pub value_from-padded : (width n : ℕ) → value_from 0 (padded width n) ≡ n
unfolding padded
value_from-padded width n =
    value_from-zeros (width - length (decimal n)) (decimal n) ∙ value_from-decimal n

-- Two numbers that print alike are equal, at any padding.
pub padded_injective : (width n m : ℕ) → padded width n ≡ padded width m → n ≡ m
padded_injective width n m e =
    sym (value_from-padded width n) ∙ ap (value_from 0) e ∙ value_from-padded width m

all_digits-append :
    (ds es : Bytes) → all_digits ds ≡ true → all_digits es ≡ true → all_digits (ds ++ es) ≡ true
all_digits-append [] es h k = k
all_digits-append (d ∷ ds) es h k = ground (arith, all_digits-append ds es)

all_digits-decimal_from : (fuel n : ℕ) → all_digits (decimal_from fuel n) ≡ true
unfolding decimal_from
all_digits-decimal_from zero n = refl
all_digits-decimal_from (suc fuel) n = elim (Bool-cases (ltb n 10)) [
  | inl small ↦ rw small (ground arith)
  | inr large ↦ rw large (
      all_digits-append (decimal_from fuel (n / 10)) ((48 + n % 10) ∷ [])
        (all_digits-decimal_from fuel (n / 10)) (ground arith))
]

pub all_digits-decimal : (n : ℕ) → all_digits (decimal n) ≡ true
unfolding decimal
all_digits-decimal n = all_digits-decimal_from (suc n) n

length-decimal-pos : (n : ℕ) → 0 < length (decimal n)
unfolding decimal decimal_from
length-decimal-pos n = elim (Bool-cases (ltb n 10)) [
  | inl small ↦ rw small (omega arith)
  | inr large ↦
      rw large (omega (arith, length-append (decimal_from n (n / 10)) ((48 + n % 10) ∷ [])))
]

-- `Atoi` reads back what `%d` printed, for a number in the range of `int`.
pub atoi-decimal : (n : ℕ) → n ≤ max_int64 → atoi (decimal n) ≡ some (pos n)
unfolding atoi digits_value
atoi-decimal n h =
    read (decimal n) (all_digits-decimal n) (value_from-decimal n) (length-decimal-pos n)
  where
    read :
        (ds : Bytes)
        → all_digits ds ≡ true
        → value_from 0 ds ≡ n
        → 0 < length ds
        → atoi ds ≡ some (pos n)
    read [] a v l = absurd (omega arith)
    read (d ∷ ds) a v l = ground arith
