-- ===== src/Decimal.antt =====
-- Decimal numbers in text, as `fmt` (%d, %04d, %08d) prints them and `strconv.Atoi` reads them.
pub mod RoundTrip
use go_learning.Common.{
  ℕ, zero, suc, ◌+◌, ◌-◌, ◌*◌, ◌/◌, ◌%◌, List, [], ◌∷◌, ◌++◌, Option, none, some, Bool, true, false,
  ◌&&◌, Bytes, length, ltb, leb, if◌then◌else◌,
}
use go_learning.Common.Int.{ℤ, pos, negsuc, sub_ℕ, max_int64}

-- The digits of `n`, the last one first taken off; fuel above `n` is enough.
unfoldable pub decimal_from : ℕ → ℕ → Bytes
decimal_from zero n = []
decimal_from (suc fuel) n =
    let rest = decimal_from fuel (n / 10) ++ (48 + n % 10) ∷ [] in
    if ltb n 10 then (48 + n) ∷ [] else rest

-- `%d` of a number that is not negative.
unfoldable pub decimal : ℕ → Bytes
unfolding decimal_from
decimal n = decimal_from (suc n) n

abbrev pub zeros : ℕ → Bytes
zeros zero = []
zeros (suc n) = 48 ∷ zeros n

-- `%0wd`: zeros in front, up to the width.
unfoldable pub padded : ℕ → ℕ → Bytes
padded width n = zeros (width - length (decimal n)) ++ decimal n

-- The number that a run of digits stands for, with `acc` read before it.
unfoldable pub value_from : ℕ → Bytes → ℕ
value_from acc [] = acc
value_from acc (d ∷ ds) = value_from (acc * 10 + (d - 48)) ds

abbrev pub all_digits : Bytes → Bool
all_digits [] = true
all_digits (d ∷ ds) = (leb 48 d && leb d 57) && all_digits ds

-- A run of digits, read as a number that is not above `bound`.
unfoldable pub digits_value : ℕ → Bytes → Option ℕ
digits_value bound [] = none
digits_value bound (d ∷ ds) =
    if all_digits (d ∷ ds)
    then (if leb (value_from 0 (d ∷ ds)) bound then some (value_from 0 (d ∷ ds)) else none)
    else none

abbrev negative : Option ℕ → Option ℤ
negative none = none
negative (some n) = some (sub_ℕ 0 n)

abbrev positive : Option ℕ → Option ℤ
positive none = none
positive (some n) = some (pos n)

-- `strconv.Atoi`: an optional sign and decimal digits, in the range of a 64-bit `int`. `none` is
-- a syntax or range error.
unfoldable pub atoi : Bytes → Option ℤ
atoi [] = none
atoi (c ∷ s) =
    if leb 43 c && leb c 43
    then positive (digits_value max_int64 s)
    else if leb 45 c && leb c 45
    then negative (digits_value (max_int64 + 1) s)
    else positive (digits_value max_int64 (c ∷ s))
