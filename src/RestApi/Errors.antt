-- ===== src/RestApi/Errors.antt =====
-- m04-rest-api/solution-httpapi/errors.go: codes and statuses of errors.
pub mod Laws
use go_learning.Common.{ℕ, Option, none, some, Bytes, bytes_eq, if◌then◌else◌}
use go_learning.GoErrors.{
  str, Err, coded, is, as_coded, as_validation, customer_not_found, customer_conflict,
}
use go_learning.GoHttp.{
  status_not_found, status_bad_request, status_conflict, status_unauthorized, status_internal,
}

abbrev pub code_not_found : Bytes
code_not_found = str "NOT_FOUND"

abbrev pub code_validation : Bytes
code_validation = str "VALIDATION"

abbrev pub code_conflict : Bytes
code_conflict = str "CONFLICT"

abbrev pub code_unauthorized : Bytes
code_unauthorized = str "UNAUTHORIZED"

abbrev pub code_internal : Bytes
code_internal = str "INTERNAL"

unfoldable pub with_code : Option Err → Bytes → Option Err
with_code none c = none
with_code (some e) c = some (coded c e)

abbrev validation_code : Option Bytes → Bytes
validation_code none = code_internal
validation_code (some field) = code_validation

-- The `switch` of `codeOf`, for an error without a code.
abbrev known_code : Err → Bytes
known_code e =
    if is customer_not_found e
    then code_not_found
    else if is customer_conflict e
    then code_conflict
    else validation_code (as_validation e)

abbrev code_of_parts : Option Bytes → Err → Bytes
code_of_parts (some c) e = c
code_of_parts none e = known_code e

unfoldable pub code_of : Err → Bytes
code_of e = code_of_parts (as_coded e) e

unfoldable pub http_status : Bytes → ℕ
http_status c =
    if bytes_eq c code_not_found
    then status_not_found
    else if bytes_eq c code_validation
    then status_bad_request
    else if bytes_eq c code_conflict
    then status_conflict
    else if bytes_eq c code_unauthorized
    then status_unauthorized
    else status_internal
