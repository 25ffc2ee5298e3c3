-- ===== src/Errorx/Laws.antt =====
-- Codes survive wrapping, the first code in the chain is the one reported, and statuses.
use mathlib.Core.List.{head?}
use mathlib.Core.Option
use go_learning.Common.{
  List, [], ◌∷◌, Option, none, some, ◌≡◌, refl, ◌↔◌, ◌≢◌, Bytes, bytes_eq_iff, arith,
}
use go_learning.GoErrors.{Sentinel, Err, coded, wrapped, is, as_coded}
use go_learning.GoErrors.Traverse.{codes, as_coded-codes}
use go_learning.Errorx.{
  code_not_found, code_validation, code_conflict, code_internal, with_code, code_or_internal, code,
  status_of, http_status,
}

-- `fmt.Errorf("…%w", …)` applied again and again, the outermost prefix first.
abbrev pub wrap_all : List Bytes → Err → Err
wrap_all [] e = e
wrap_all (p ∷ ps) e = wrapped p (wrap_all ps e)

pub as_coded-wrap_all : (ps : List Bytes) (e : Err) → as_coded (wrap_all ps e) ≡ as_coded e
unfolding as_coded
as_coded-wrap_all [] e = refl
as_coded-wrap_all (p ∷ ps) e = as_coded-wrap_all ps e

pub is-wrap_all : (s : Sentinel) (ps : List Bytes) (e : Err) → is s (wrap_all ps e) ≡ is s e
unfolding is
is-wrap_all s [] e = refl
is-wrap_all s (p ∷ ps) e = is-wrap_all s ps e

-- An error tagged by `WithCode` and then wrapped any number of times by `%w` reports that code and
-- the code's status, and `errors.Is` still answers for it as for the untagged error.
pub code-with_code :
    (ps : List Bytes) (e : Err) (c : Bytes)
    → let tagged = Option.map (wrap_all ps) (with_code (some e) c) in
      (code tagged ≡ c)
      × (http_status tagged ≡ status_of c)
      × ((s : Sentinel) → Option.map (is s) tagged ≡ some (is s e))
unfolding with_code code http_status code_or_internal as_coded is
code-with_code ps e c =
    let found : as_coded (wrap_all ps (coded c e)) ≡ some c = as_coded-wrap_all ps (coded c e) in
    (rw found, rw found, λ s. rw (is-wrap_all s ps (coded c e)))

-- `Code` reports the first code met in the order of `Unwrap` (depth first through `errors.Join`),
-- "INTERNAL" for an error without a code, and "" for nil.
pub code-codes :
    (code none ≡ []) × ((e : Err) → code (some e) ≡ Option.get_or (head? (codes e)) code_internal)
unfolding code code_or_internal
code-codes = (refl, λ e. rw (as_coded-codes e) (at_head (head? (codes e))))
  where
    at_head : (o : Option Bytes) → code_or_internal o ≡ Option.get_or o code_internal
    at_head none = refl
    at_head (some c) = refl

-- The tests of the `switch` exclude one another.
status_of_iff :
    (c : Bytes)
    → ((status_of c ≡ 404) ↔ (c ≡ code_not_found))
      × ((status_of c ≡ 400) ↔ (c ≡ code_validation))
      × ((status_of c ≡ 409) ↔ (c ≡ code_conflict))
      × ((status_of c ≡ 500) ↔ ((c ≢ code_not_found) × (c ≢ code_validation) × (c ≢ code_conflict)))
unfolding status_of
status_of_iff c = grind (
  arith,
  bytes_eq_iff c code_not_found,
  bytes_eq_iff c code_validation,
  bytes_eq_iff c code_conflict,
)

-- The status is 404, 400 or 409 exactly when the code is "NOT_FOUND", "VALIDATION" or "CONFLICT",
-- and 500 exactly when it is none of the three; so nil, which has no code, gets 500 too.
pub http_status_iff :
    (e : Option Err)
    → ((http_status e ≡ 404) ↔ (code e ≡ code_not_found))
      × ((http_status e ≡ 400) ↔ (code e ≡ code_validation))
      × ((http_status e ≡ 409) ↔ (code e ≡ code_conflict))
      × ((http_status e ≡ 500)
          ↔ ((code e ≢ code_not_found) × (code e ≢ code_validation) × (code e ≢ code_conflict)))
unfolding http_status
http_status_iff e = status_of_iff (code e)
