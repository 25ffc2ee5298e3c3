-- ===== src/GoStrings.antt =====
-- What the program uses of `strings`, of `encoding/hex` and of Go's string slicing. A string is its
-- bytes.
pub mod Laws
use go_learning.Common.{
  ℕ, zero, suc, ◌-◌, ◌+◌, ◌/◌, ◌%◌, ltb, List, [], ◌∷◌, ◌++◌, Option, none, some, Bool, true, false,
  ◌&&◌, ◌||◌, Bytes, length, nat_eq, leb, bytes_eq, if◌then◌else◌, drop,
}
use go_learning.Common.Int.{ℤ, pos, negsuc}

-- `strings.Contains(s, c)` for a text `c` of one byte.
unfoldable pub contains_byte : ℕ → Bytes → Bool
contains_byte c [] = false
contains_byte c (b ∷ s) = nat_eq b c || contains_byte c s

-- How many bytes the white space rune (`unicode.IsSpace`, in UTF-8) that begins a text takes; 0 if
-- the text begins with no such rune.
space_width : Bytes → ℕ
space_width [] = 0
space_width (a ∷ []) = if (leb 9 a && leb a 13) || nat_eq a 32 then 1 else 0
space_width (a ∷ b ∷ []) =
    if (leb 9 a && leb a 13) || nat_eq a 32
    then 1
    else if nat_eq a 0xc2 && (nat_eq b 0x85 || nat_eq b 0xa0)
    then 2
    else 0
space_width (a ∷ b ∷ c ∷ s) =
    if (leb 9 a && leb a 13) || nat_eq a 32
    then 1
    else if nat_eq a 0xc2 && (nat_eq b 0x85 || nat_eq b 0xa0)
    then 2
    else if (nat_eq a 0xe1 && (nat_eq b 0x9a && nat_eq c 0x80))
        || ((nat_eq a 0xe2
              && (nat_eq b 0x80
                  && ((leb 0x80 c && leb c 0x8a)
                      || (nat_eq c 0xa8 || (nat_eq c 0xa9 || nat_eq c 0xaf)))))
            || ((nat_eq a 0xe2 && (nat_eq b 0x81 && nat_eq c 0x9f))
                || (nat_eq a 0xe3 && (nat_eq b 0x80 && nat_eq c 0x80))))
    then 3
    else 0

-- White space at the front taken off; `skip` bytes of a rune are still to be passed over.
trim_left_from : ℕ → Bytes → Bytes
trim_left_from skip [] = []
trim_left_from (suc skip) (a ∷ s) = trim_left_from skip s
trim_left_from zero (a ∷ s) = elim (space_width (a ∷ s)) [
  | zero ↦ a ∷ s
  | suc width ↦ trim_left_from width s
]

-- `strings.TrimSpace(s) == ""`. A text that is not empty after the trim on the left begins with a
-- rune that is no space, which the trim on the right leaves.
unfoldable pub is_blank : Bytes → Bool
unfolding trim_left_from space_width
is_blank s = bytes_eq (trim_left_from 0 s) []

-- `strings.TrimPrefix`
unfoldable pub strip_prefix : Bytes → Bytes → Option Bytes
strip_prefix [] s = some s
strip_prefix (p ∷ ps) [] = none
strip_prefix (p ∷ ps) (c ∷ s) = if nat_eq p c then strip_prefix ps s else none

unfoldable pub trim_prefix : Bytes → Bytes → Bytes
unfolding strip_prefix
trim_prefix s prefix = elim (strip_prefix prefix s) [ none ↦ s | some rest ↦ rest ]

-- `strings.IndexByte`: -1 when the byte is not there.
index_from : ℕ → Bytes → ℕ → ℤ
index_from i [] c = negsuc 0
index_from i (b ∷ s) c = if nat_eq b c then pos i else index_from (suc i) s c

unfoldable pub index_byte : Bytes → ℕ → ℤ
unfolding index_from
index_byte s c = index_from 0 s c

-- `s[n:]`; `none` is the run-time panic.
unfoldable pub slice_from : Bytes → ℤ → Option Bytes
slice_from s (pos n) = if leb n (length s) then some (drop n s) else none
slice_from s (negsuc n) = none

abbrev hex_digit : ℕ → ℕ
hex_digit d = if ltb d 10 then b'0' + d else 87 + d

-- `hex.EncodeToString`
unfoldable pub hex : List ℕ → Bytes
hex [] = []
hex (b ∷ bs) = hex_digit (b / 16) ∷ hex_digit (b % 16) ∷ hex bs
