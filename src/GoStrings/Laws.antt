-- ===== src/GoStrings/Laws.antt =====
-- Where `IndexByte` finds a byte.
use go_learning.Common.{
  ℕ, suc, ◌+◌, ◌≤◌, [], ◌∷◌, ◌++◌, some, true, false, Bytes, length, drop, ◌≡◌, refl, arith, le→leb,
  nat_eq, nat_eq_iff, inl, inr, Bool-cases, ap, ◌∙◌,
}
use go_learning.Common.Int.{pos, negsuc}
use go_learning.GoStrings.{contains_byte, index_byte, index_from, slice_from}

-- A text that holds a byte is a part without it, the byte and a rest.
pub split_at_byte :
    (s : Bytes) (c : ℕ)
    → contains_byte c s ≡ true
    → (front rest : Bytes) × (s ≡ front ++ c ∷ rest) × (contains_byte c front ≡ false)
unfolding contains_byte
split_at_byte [] c h = cc
split_at_byte (b ∷ s) c h = elim (Bool-cases (nat_eq b c)) [
  | inl e ↦ ([], s, rw ((nat_eq_iff b c).0 e), refl)
  | inr ne ↦
      let (front, rest, eq, free) = split_at_byte s c (ground arith) in
      (b ∷ front, rest, ap (λ r. b ∷ r) eq, ground arith)
]

index_from-append :
    (i : ℕ) (front rest : Bytes) (c : ℕ)
    → contains_byte c front ≡ false
    → index_from i (front ++ c ∷ rest) c ≡ pos (i + length front)
unfolding index_from contains_byte
index_from-append i [] rest c h = ground (arith, nat_eq_iff c c)
index_from-append i (b ∷ front) rest c h = ground (arith, index_from-append (suc i) front rest c)

pub index_byte-append :
    (front rest : Bytes) (c : ℕ)
    → contains_byte c front ≡ false
    → index_byte (front ++ c ∷ rest) c ≡ pos (length front)
unfolding index_byte
index_byte-append front rest c h = index_from-append 0 front rest c h ∙ ap pos (omega arith)

index_from-absent :
    (i : ℕ) (s : Bytes) (c : ℕ) → contains_byte c s ≡ false → index_from i s c ≡ negsuc 0
unfolding index_from contains_byte
index_from-absent i [] c h = refl
index_from-absent i (b ∷ s) c h = ground (arith, index_from-absent (suc i) s c)

pub index_byte-absent : (s : Bytes) (c : ℕ) → contains_byte c s ≡ false → index_byte s c ≡ negsuc 0
unfolding index_byte
index_byte-absent s c h = index_from-absent 0 s c h

drop-append : (front rest : Bytes) → drop (length front) (front ++ rest) ≡ rest
drop-append [] rest = refl
drop-append (b ∷ front) rest = drop-append front rest

length-le-append : (front rest : Bytes) → length front ≤ length (front ++ rest)
length-le-append [] rest = omega arith
length-le-append (b ∷ front) rest = omega (arith, length-le-append front rest)

pub slice_from-append :
    (front rest : Bytes) → slice_from (front ++ rest) (pos (length front)) ≡ some rest
unfolding slice_from
slice_from-append front rest =
    rw (le→leb (length front) (length (front ++ rest)) (length-le-append front rest))
      (ap some (drop-append front rest))
