-- ===== src/Customers/Upsert.antt =====
-- `Create` and `ByID` of m01, and what `Validate` reports.
use go_learning.Common.{
  ℕ, none, some, true, false, Bytes, bytes_eq, string_comparable, ◌≡◌, ◌↔◌, refl, inl, inr,
  Bool-cases, if◌then◌else◌,
}
use mathlib.Core.Option
use go_learning.Common.GoMap.{lookup-insert}
use go_learning.GoErrors.{str, join₂, as_validation, message, or_else, ok}
use go_learning.GoStrings.{contains_byte, is_blank}
use go_learning.Customers.{
  Customer, validate, validate_email, validate_name, InMemoryRepo, stamped, create, by_id,
}

-- After `Create`, which always succeeds, `ByID` finds the stamped customer under its id, whatever
-- stood there before, and answers for any other id as before.
pub create-by_id :
    (now : ℕ) (c : Customer) (r : InMemoryRepo) (id : Bytes)
    → ((create now c r).0 ≡ ok (stamped now c))
      × (by_id id (create now c r).1
          ≡ (if bytes_eq c.id id then ok (stamped now c) else by_id id r))
unfolding create by_id
create-by_id now c r id = (
  refl,
  elim (Bool-cases (bytes_eq c.id id)) [
    | inl same ↦ rw (lookup-insert c.id id (stamped now c) r.m) (rw same)
    | inr other ↦ rw (lookup-insert c.id id (stamped now c) r.m) (rw other)
  ],
)

-- `Validate` returns nil exactly for an e-mail address with an "@" and a name that is not blank; its
-- error names the field "email" when the address is bad, else "name", to `errors.As`; and the
-- messages of two bad fields are joined by a newline.
pub validate_lem :
    (c : Customer)
    → let good_email = contains_byte b'@' c.email in
      let bad_name = is_blank c.name in
      ((validate c ≡ none) ↔ ((good_email ≡ true) × (bad_name ≡ false)))
      × (Option.map as_validation (validate c) ≡ (
          if good_email
          then (if bad_name then some (some (str "name")) else none)
          else some (some (str "email"))))
      × (Option.map message (validate c) ≡ (
          if good_email
          then (if bad_name then some (str "validation: name: must not be empty") else none)
          else some (
              if bad_name
              then str "validation: email: must contain @\nvalidation: name: must not be empty"
              else str "validation: email: must contain @")))
unfolding validate validate_email validate_name join₂ as_validation message or_else
validate_lem c = elim (Bool-cases (contains_byte b'@' c.email)) [
  | inl good ↦ elim (Bool-cases (is_blank c.name)) [
    | inl blank ↦ rw (good, blank) ((λ p. cc, λ p. cc), refl, refl)
    | inr named ↦ rw (good, named) ((λ p. (refl, refl), λ p. refl), refl, refl)
  ]
  | inr bad ↦ elim (Bool-cases (is_blank c.name)) [
    | inl blank ↦ rw (bad, blank) ((λ p. cc, λ p. cc), refl, refl)
    | inr named ↦ rw (bad, named) ((λ p. cc, λ p. cc), refl, refl)
  ]
]
