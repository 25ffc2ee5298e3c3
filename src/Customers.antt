-- ===== src/Customers.antt =====
-- m01-interfaces-and-errors/solution-customer: customer.go and validate.go. Every method of the
-- repository holds the lock throughout.
pub mod Upsert
mod Tests
use go_learning.Common.{
  ℕ, List, [], ◌∷◌, Option, none, some, Bytes, string_comparable, if◌then◌else◌,
}
use go_learning.Common.GoMap.{lookup, insert}
use go_learning.GoErrors.{
  str, Err, validation, join₂, sentinel, customer_not_found, Result, ok, err,
}
use go_learning.GoStrings.{contains_byte, is_blank}

pub record AuditFields : Type 0 where
  pub created_at : ℕ
  pub updated_at : ℕ

pub record Customer : Type 0 where
  pub id : Bytes
  pub email : Bytes
  pub name : Bytes
  pub audit : AuditFields

unfoldable pub validate_email : Bytes → Option Err
validate_email e =
    if contains_byte b'@' e then none else some (validation (str "email") (str "must contain @"))

unfoldable pub validate_name : Bytes → Option Err
validate_name n =
    if is_blank n then some (validation (str "name") (str "must not be empty")) else none

unfoldable pub validate : Customer → Option Err
unfolding validate_email validate_name
validate c = join₂ (validate_email c.email) (validate_name c.name)

pub record InMemoryRepo : Type 0 where
  pub m : List (Bytes × Customer)

unfoldable pub new_in_memory_repo : InMemoryRepo
new_in_memory_repo = record { m = [] }

abbrev pub stamped : ℕ → Customer → Customer
stamped now c = record c { audit = record { created_at = now; updated_at = now } }

-- `Create` never fails: a customer with the same id is replaced.
unfoldable pub create : ℕ → Customer → InMemoryRepo → Result Customer × InMemoryRepo
create now c r = (ok (stamped now c), record { m = insert c.id (stamped now c) r.m })

abbrev pub found_customer : Option Customer → Result Customer
found_customer none = err (sentinel customer_not_found)
found_customer (some c) = ok c

unfoldable pub by_id : Bytes → InMemoryRepo → Result Customer
by_id id r = found_customer (lookup id r.m)
