-- ===== src/Pulse/Customer.antt =====
-- m10-project-structure/pulse/internal/customer/customer.go: entity, service and repository. The
-- package internal/errorx that it calls is the one of m01-interfaces-and-errors, word for word. Every
-- method of the repository holds the lock throughout.
use go_learning.Common.{
  ℕ, zero, suc, ◌+◌, ◌/◌, ◌%◌, List, [], ◌∷◌, ◌++◌, Option, none, some, Bool, not, Bytes, bytes_eq,
  nat_eq, string_comparable, any, if◌then◌else◌,
}
use go_learning.Common.GoMap.{lookup, insert}
use go_learning.GoErrors.{
  str, Err, text, coded, sentinel, customer_not_found, customer_conflict, is, Result, ok, err,
}
use go_learning.GoStrings.{contains_byte, is_blank}
use go_learning.Errorx.{code_not_found, code_validation}

pub record Customer : Type 0 where
  pub id : Bytes
  pub email : Bytes
  pub name : Bytes
  pub created_at : ℕ

unfoldable pub validate : Customer → Option Err
validate c =
    if not (contains_byte b'@' c.email)
    then some (text (str "email must contain @"))
    else if is_blank c.name
    then some (text (str "name must not be empty"))
    else none

-- `itoa`: digits are written into the 20 bytes from the back; `room` counts the bytes in front of
-- those written, and a write with no room left is the run-time panic, `none`.
unfoldable pub itoa_from : ℕ → ℕ → Bytes → Option Bytes
itoa_from zero n written = if nat_eq n 0 then some written else none
itoa_from (suc room) n written =
    let rest = itoa_from room (n / 10) ((48 + n % 10) ∷ written) in
    if nat_eq n 0 then some written else rest

unfoldable pub itoa : ℕ → Option Bytes
itoa n = if nat_eq n 0 then some (str "0") else itoa_from 20 n []

pub record InMemoryRepo : Type 0 where
  pub m : List (Bytes × Customer)
  pub seq : ℕ

unfoldable pub new_in_memory_repo : InMemoryRepo
new_in_memory_repo = record { m = []; seq = 0 }

unfoldable pub taken_by : Bytes → List (Bytes × Customer) → Bool
taken_by email m = any (λ p. bytes_eq p.1.email email) m

-- After the number is printed: `none` is the panic in `itoa`.
abbrev pub numbered :
    ℕ → Customer → InMemoryRepo → Option Bytes → Option (Result Customer × InMemoryRepo)
numbered now c r none = none
numbered now c r (some digits) =
    let made = record c { id = str "cus_" ++ digits; created_at = now } in
    some (ok made, record { m = insert (str "cus_" ++ digits) made r.m; seq = suc r.seq })

unfoldable pub repo_create : ℕ → Customer → InMemoryRepo → Option (Result Customer × InMemoryRepo)
repo_create now c r =
    if taken_by c.email r.m
    then some (err (sentinel customer_conflict), r)
    else numbered now c r (itoa (suc r.seq))

abbrev pub found_customer : Option Customer → Result Customer
found_customer none = err (sentinel customer_not_found)
found_customer (some c) = ok c

unfoldable pub repo_by_id : Bytes → InMemoryRepo → Result Customer
repo_by_id id r = found_customer (lookup id r.m)

-- `Service.Create`
abbrev pub checked :
    ℕ → Customer → InMemoryRepo → Option Err → Option (Result Customer × InMemoryRepo)
checked now c r (some e) = some (err (coded code_validation e), r)
checked now c r none = repo_create now c r

unfoldable pub create : ℕ → Customer → InMemoryRepo → Option (Result Customer × InMemoryRepo)
create now c r = checked now c r (validate c)

-- `Service.Get`
abbrev pub tagged : Result Customer → Result Customer
tagged (ok c) = ok c
tagged (err e) = if is customer_not_found e then err (coded code_not_found e) else err e

unfoldable pub get : Bytes → InMemoryRepo → Result Customer
get id r = tagged (repo_by_id id r)
