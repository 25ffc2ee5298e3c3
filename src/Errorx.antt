-- ===== src/Errorx.antt =====
-- m01-interfaces-and-errors/solution-errorx/errorx.go: codes on errors, and HTTP statuses for
-- codes. A nil `error` is `none`.
pub mod Laws
mod Tests
use go_learning.Common.{ℕ, Option, none, some, Bytes, bytes_eq, if◌then◌else◌}
use go_learning.GoErrors.{str, Err, coded, as_coded}
use go_learning.GoHttp.{status_not_found, status_bad_request, status_conflict, status_internal}

abbrev pub code_not_found : Bytes
code_not_found = str "NOT_FOUND"

abbrev pub code_validation : Bytes
code_validation = str "VALIDATION"

abbrev pub code_conflict : Bytes
code_conflict = str "CONFLICT"

abbrev pub code_internal : Bytes
code_internal = str "INTERNAL"

unfoldable pub with_code : Option Err → Bytes → Option Err
with_code none c = none
with_code (some e) c = some (coded c e)

-- The `if errors.As(…)` of `Code`, behind the test for nil.
unfoldable pub code_or_internal : Option Bytes → Bytes
code_or_internal (some c) = c
code_or_internal none = code_internal

unfoldable pub code : Option Err → Bytes
unfolding code_or_internal
code none = str ""
code (some e) = code_or_internal (as_coded e)

-- The `switch` of `HTTPStatus`.
unfoldable pub status_of : Bytes → ℕ
status_of c =
    if bytes_eq c code_not_found
    then status_not_found
    else if bytes_eq c code_validation
    then status_bad_request
    else if bytes_eq c code_conflict
    then status_conflict
    else status_internal

unfoldable pub http_status : Option Err → ℕ
http_status e = status_of (code e)
