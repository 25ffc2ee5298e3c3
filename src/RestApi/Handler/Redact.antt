-- ===== src/RestApi/Handler/Redact.antt =====
-- What `redactEmail` shows of an address.
use go_learning.Common.{
  [], ◌∷◌, ◌++◌, none, some, true, false, Bytes, length, take, if◌then◌else◌, ◌≡◌, ◌↔◌, refl, sym,
  ap, ◌∙◌, arith, inl, inr, Bool-cases,
}
use go_learning.Common.Int.{pos, negsuc, ltb_ℤ}
use go_learning.GoErrors.{str}
use go_learning.GoStrings.{contains_byte, slice_from}
use go_learning.GoStrings.Laws.{
  split_at_byte, index_byte-append, index_byte-absent, slice_from-append,
}
use go_learning.RestApi.Handler.{redact_email}

-- The part of a local name that stays: its first byte, if it has more than one.
abbrev pub shown : Bytes → Bytes
shown [] = []
shown (a ∷ []) = []
shown (a ∷ b ∷ front) = a ∷ []

shown_lem :
    (front rest : Bytes)
    → (if ltb_ℤ (pos 1) (pos (length front)) then take 1 (front ++ rest) else []) ≡ shown front
shown_lem [] rest = ground arith
shown_lem (a ∷ []) rest = ground arith
shown_lem (a ∷ b ∷ front) rest = ground arith

-- An address local@domain is shown as "***@domain" when its local part has at most one byte, and
-- else as the first byte of the local part, "***" and "@domain", where the local part ends at the
-- first "@".
pub redact_email-append :
    (front domain : Bytes)
    → contains_byte b'@' front ≡ false
    → redact_email (front ++ b'@' ∷ domain) ≡ some (shown front ++ (str "***" ++ b'@' ∷ domain))
unfolding redact_email
redact_email-append front domain h =
    rw (index_byte-append front domain b'@' h)
      (rw (slice_from-append front (b'@' ∷ domain), shown_lem front (b'@' ∷ domain)))

slice_from-absent : (e : Bytes) → slice_from e (negsuc 0) ≡ none
unfolding slice_from
slice_from-absent e = refl

-- `redactEmail` panics exactly on an address without "@".
pub redact_email_panics_iff : (e : Bytes) → (redact_email e ≡ none) ↔ (contains_byte b'@' e ≡ false)
unfolding redact_email
redact_email_panics_iff e = elim (Bool-cases (contains_byte b'@' e)) [
  | inl has ↦
      let (front, domain, eq, free) = split_at_byte e b'@' has in
      let shows : redact_email (front ++ b'@' ∷ domain)
          ≡ some (shown front ++ (str "***" ++ b'@' ∷ domain)) =
        redact_email-append front domain free in
      (
        λ none_eq. absurd (clash (sym none_eq ∙ ap redact_email eq ∙ shows)),
        λ lacks. absurd (apart (sym has ∙ lacks)),
      )
  | inr lacks ↦ (λ _. lacks, λ _. rw (index_byte-absent e b'@' lacks) (rw (slice_from-absent e)))
]
  where
    clash : {r : Bytes} → none ≡ some r → ⊥
    clash p = cc

    apart : true ≡ false → ⊥
    apart p = cc
