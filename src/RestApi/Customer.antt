-- ===== src/RestApi/Customer.antt =====
-- m04-rest-api/solution-customer/customer.go: the entity and its validation. A `time.Time` is the
-- reading of a clock, as a number; every function that reads the clock takes the reading.
use go_learning.Common.{ℕ, Option, none, some, Bytes, if◌then◌else◌}
use go_learning.GoErrors.{str, Err, validation, join₂}
use go_learning.GoStrings.{contains_byte, is_blank}

pub record Customer : Type 0 where
  pub id : Bytes
  pub email : Bytes
  pub name : Bytes
  pub created_at : ℕ
  pub updated_at : ℕ

unfoldable pub validate_email : Bytes → Option Err
validate_email e =
    if contains_byte b'@' e then none else some (validation (str "email") (str "must contain @"))

unfoldable pub validate_name : Bytes → Option Err
validate_name n =
    if is_blank n then some (validation (str "name") (str "must not be empty")) else none

unfoldable pub validate : Customer → Option Err
unfolding validate_email validate_name
validate c = join₂ (validate_email c.email) (validate_name c.name)
