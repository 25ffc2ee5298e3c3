-- ===== src/Pulse/Answers.antt =====
-- How the customer service of m10 answers.
use go_learning.Common.{
  ℕ, suc, ◌≤◌, List, ◌++◌, Option, none, some, true, false, Bytes, bytes_eq_refl, string_comparable,
  ◌≡◌, ◌⊎◌, refl, ap, ◌∙◌, inl, inr, Bool-cases, if◌then◌else◌,
}
use go_learning.Common.Int.{max_int64}
use go_learning.Common.GoMap.{lookup, insert, lookup-insert}
use go_learning.Decimal.{decimal}
use go_learning.GoErrors.{
  str, Err, coded, sentinel, customer_conflict, as_coded, message, Result, ok, err,
}
use go_learning.GoHttp.{status_ok, status_created, status_bad_request, status_internal}
use go_learning.Errorx.{
  code_validation, code_internal, code, code_or_internal, http_status, status_of,
}
use go_learning.Pulse.Customer.{
  Customer, InMemoryRepo, validate, taken_by, repo_create, checked, create, repo_by_id, tagged, get,
  found_customer,
}
use go_learning.Pulse.Itoa.{itoa-decimal}
use go_learning.Pulse.Handler.{
  CreateReq, Response, write_json, error_body, customer_body, respond_err, resp_of, new_customer,
  handle_create, handle_get, internal_message, created, create_decoded, answered,
}

abbrev pub made_id : InMemoryRepo → Bytes
made_id r = str "cus_" ++ decimal (suc r.seq)

abbrev pub made : ℕ → CreateReq → InMemoryRepo → Customer
made now req r = record { id = made_id r; email = req.email; name = req.name; created_at = now }

-- The ways in which a creation can be answered, each with its cause.
abbrev pub CreationIs :
    Result CreateReq → ℕ → InMemoryRepo → Option (Response × InMemoryRepo) → Type 0
CreationIs (err e) now r out =
    out
    ≡ some (
      write_json status_bad_request
          (error_body code_validation (message (coded code_validation e))),
      r,
    )
CreationIs (ok req) now r out =
    ((e : Err) × (validate (new_customer req) ≡ some e)
      × (out
          ≡ some (
            write_json status_bad_request
                (error_body code_validation (message (coded code_validation e))),
            r,
          )))
    ⊎ ((validate (new_customer req) ≡ none)
        × (taken_by req.email r.m ≡ true)
        × (out ≡ some (write_json status_internal (error_body code_internal internal_message), r)))
    ⊎ ((validate (new_customer req) ≡ none)
        × (taken_by req.email r.m ≡ false)
        × ((r' : InMemoryRepo) × (out
              ≡ some (write_json status_created (customer_body (resp_of (made now req r))), r'))
            × (handle_get (made_id r) r'
                ≡ write_json status_ok (customer_body (resp_of (made now req r))))))

respond_validation :
    (e : Err)
    → respond_err (coded code_validation e)
      ≡ write_json status_bad_request
          (error_body code_validation (message (coded code_validation e)))
unfolding respond_err http_status code code_or_internal as_coded status_of
respond_validation e = refl

respond_conflict :
    respond_err (sentinel customer_conflict)
    ≡ write_json status_internal (error_body code_internal internal_message)
unfolding respond_err http_status code code_or_internal as_coded status_of
respond_conflict = refl

get_made :
    (seq : ℕ) (k : Bytes) (c : Customer) (m : List (Bytes × Customer))
    → handle_get k (record { m = insert k c m; seq = seq })
      ≡ write_json status_ok (customer_body (resp_of c))
unfolding handle_get get repo_by_id
get_made seq k c m =
    ap (λ o. answered (tagged (found_customer o)))
      (lookup-insert k k c m ∙ ap (λ b. if b then some c else lookup k m) (bytes_eq_refl k))

valid_create :
    (now : ℕ) (req : CreateReq) (r : InMemoryRepo)
    → suc r.seq ≤ max_int64
    → validate (new_customer req) ≡ none
    → CreationIs (ok req) now r (created (repo_create now (new_customer req) r))
unfolding repo_create
valid_create now req r h valid = elim (Bool-cases (taken_by req.email r.m)) [
  | inl old ↦ rw old (inr (inl (valid, refl, ap (λ answer. some (answer, r)) respond_conflict)))
  | inr new ↦
      let r' : InMemoryRepo = record {
        m = insert (made_id r) (made now req r) r.m;
        seq = suc r.seq;
      } in
      rw (new, itoa-decimal (suc r.seq) h)
        (inr (inr (valid, refl, (r', refl, get_made (suc r.seq) (made_id r) (made now req r) r.m))))
]

pub handle_create-CreationIs :
    (decode : Bytes → Result CreateReq) (body : Bytes) (now : ℕ) (r : InMemoryRepo)
    → suc r.seq ≤ max_int64
    → CreationIs (decode body) now r (handle_create decode body now r)
unfolding handle_create create
handle_create-CreationIs decode body now r h = go (decode body)
  where
    invalid :
        (req : CreateReq) (o : Option Err)
        → validate (new_customer req) ≡ o
        → CreationIs (ok req) now r (created (checked now (new_customer req) r o))
    invalid req (some e) bad = inl (e, bad, ap (λ answer. some (answer, r)) (respond_validation e))
    invalid req none valid = valid_create now req r h valid

    go : (o : Result CreateReq) → CreationIs o now r (create_decoded now r o)
    go (err e) = ap (λ answer. some (answer, r)) (respond_validation e)
    go (ok req) = invalid req (validate (new_customer req)) refl
