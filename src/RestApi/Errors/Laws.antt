-- ===== src/RestApi/Errors/Laws.antt =====
-- The code of an error under wrapping, and of the errors of the domain package.
use go_learning.Common.{
  List, [], ◌∷◌, none, some, Bytes, ◌≡◌, refl, sym, ◌∙◌, ap, inl, inr, Bool-cases, Option-cases,
}
use go_learning.GoErrors.{
  Err, wrapped, is, as_coded, as_validation, customer_not_found, customer_conflict, sentinel, join₂,
  or_else,
}
use go_learning.Errorx.Laws.{wrap_all}
use go_learning.GoStrings.{contains_byte, is_blank}
use go_learning.RestApi.Customer.{Customer, validate}
use go_learning.RestApi.Errors.{code_of, with_code, code_not_found, code_conflict, code_validation}

code_of-wrapped : (p : Bytes) (e : Err) → code_of (wrapped p e) ≡ code_of e
unfolding code_of as_coded as_validation is
code_of-wrapped p e = elim (Option-cases (as_coded e)) [
  | inl untagged ↦ rw untagged
  | inr (c, tagged) ↦ rw tagged
]

code_of_wrapped : (ps : List Bytes) (e : Err) → code_of (wrap_all ps e) ≡ code_of e
code_of_wrapped [] e = refl
code_of_wrapped (p ∷ ps) e = code_of-wrapped p (wrap_all ps e) ∙ code_of_wrapped ps e

some_injective : {a b : Err} → some a ≡ some b → a ≡ b
some_injective p = cc

-- Wrapping an error by `%w`, any number of times, does not change its code; tagging it by
-- `withCode` gives it the tag's code, whatever it is.
pub code_of-wrap_all :
    (ps : List Bytes) (e : Err) (c : Bytes)
    → (code_of (wrap_all ps e) ≡ code_of e)
      × ((t : Err) → with_code (some e) c ≡ some t → code_of (wrap_all ps t) ≡ c)
unfolding code_of with_code as_coded
code_of-wrap_all ps e c =
    (code_of_wrapped ps e, λ t eq. code_of_wrapped ps t ∙ ap code_of (sym (some_injective eq)))

validated_code : (c : Customer) (e : Err) → validate c ≡ some e → code_of e ≡ code_validation
unfolding code_of validate join₂ as_coded as_validation is or_else
validated_code c e eq = elim (Bool-cases (contains_byte b'@' c.email)) [
  | inl has ↦ elim (Bool-cases (is_blank c.name)) [
    | inl blank ↦ rw (← some_injective (rw (has, blank) at eq))
    | inr named ↦ absurd (none_some (rw (has, named) at eq))
  ]
  | inr lacks ↦ elim (Bool-cases (is_blank c.name)) [
    | inl blank ↦ rw (← some_injective (rw (lacks, blank) at eq))
    | inr named ↦ rw (← some_injective (rw (lacks, named) at eq))
  ]
]
  where
    none_some : {x : Err} → none ≡ some x → ⊥
    none_some p = cc

-- The domain's errors: a failed validation has the code "VALIDATION" whether one field is wrong or
-- both, and the two sentinels have "NOT_FOUND" and "CONFLICT".
pub code_of-domain :
    ((c : Customer) (e : Err) → validate c ≡ some e → code_of e ≡ code_validation)
    × (code_of (sentinel customer_not_found) ≡ code_not_found)
    × (code_of (sentinel customer_conflict) ≡ code_conflict)
unfolding code_of as_coded as_validation is
code_of-domain = (validated_code, refl, refl)
