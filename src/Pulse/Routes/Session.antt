-- ===== src/Pulse/Routes/Session.antt =====
-- A session with the service of m10, through its routes.
use go_learning.Common.{
  ℕ, suc, ◌≤◌, [], ◌∷◌, ◌++◌, Option, none, some, Bytes, ◌≡◌, ◌⊎◌, refl, sym, ap, ◌∙◌, inl, inr,
  arith, subst,
}
use go_learning.Common.Int.{max_int64}
use go_learning.GoErrors.{str, Result, ok, err}
use go_learning.GoHttp.{status_ok, status_created, status_bad_request, status_internal}
use go_learning.GoMux.{route}
use go_learning.Pulse.Customer.{InMemoryRepo}
use go_learning.Pulse.Handler.{
  CreateReq, Resp, Response, Payload, write_json, error_body, customer_body, health_body, resp_of,
  handle_create, handle_get,
}
use go_learning.Pulse.Answers.{made_id, made, CreationIs, handle_create-CreationIs}
use go_learning.Pulse.Routes.{
  Request, Reply, answer, not_allowed_405, not_found_404, answer_with, customers_path, routes,
  serve,
}

abbrev pub post_customer : Bytes → Request
post_customer body = record { method = str "POST"; path = customers_path; body = body }

abbrev pub get_customer : Bytes → Request
get_customer id = record { method = str "GET"; path = customers_path ++ id ∷ []; body = [] }

serve_post :
    (decode : Bytes → Result CreateReq) (body : Bytes) (now : ℕ) (r : InMemoryRepo)
    → serve decode (post_customer body) now r ≡ answer_with (handle_create decode body now r)
unfolding serve route routes
serve_post decode body now r = refl

serve_get :
    (decode : Bytes → Result CreateReq) (b : ℕ) (bs : Bytes) (now : ℕ) (r : InMemoryRepo)
    → serve decode (get_customer (b ∷ bs)) now r ≡ some (answer (handle_get (b ∷ bs) r), r)
unfolding serve route routes
serve_get decode b bs now r = refl

abbrev status_in : Option (Reply × InMemoryRepo) → ℕ
status_in none = 0
status_in (some (answer response, r)) = response.status
status_in (some (not_allowed_405, r)) = 405
status_in (some (not_found_404, r)) = 404

abbrev resp_in : Resp → Payload → Resp
resp_in other health_body = other
resp_in other (error_body code msg) = other
resp_in other (customer_body c) = c

abbrev customer_in : Resp → Option (Reply × InMemoryRepo) → Resp
customer_in other none = other
customer_in other (some (answer response, r)) = resp_in other response.body
customer_in other (some (not_allowed_405, r)) = other
customer_in other (some (not_found_404, r)) = other

abbrev repo_in : InMemoryRepo → Option (Reply × InMemoryRepo) → InMemoryRepo
repo_in other none = other
repo_in other (some (reply, r)) = r

module _ (decode : Bytes → Result CreateReq) (body : Bytes) (now later : ℕ) (r r' : InMemoryRepo)
    (c : Resp) where
  Created : Type 0
  Created =
      serve decode (post_customer body) now r
      ≡ some (answer (write_json status_created (customer_body c)), r')

  -- Only a stored customer is answered by 201.
  not_created :
      (out : Response)
      → (out.status ≡ status_bad_request) ⊎ (out.status ≡ status_internal)
      → handle_create decode body now r ≡ some (out, r)
      → Created
      → ⊥
  unfolding Created write_json
  not_created out which e h =
      let same : out.status ≡ status_created =
        ap status_in (sym (serve_post decode body now r ∙ ap answer_with e) ∙ h) in
      elim which [ inl p ↦ omega arith | inr p ↦ omega arith ]

  read_back :
      (req : CreateReq) (r₁ : InMemoryRepo)
      → handle_create decode body now r
        ≡ some (write_json status_created (customer_body (resp_of (made now req r))), r₁)
      → handle_get (made_id r) r₁ ≡ write_json status_ok (customer_body (resp_of (made now req r)))
      → Created
      → serve decode (get_customer c.id) later r'
        ≡ some (answer (write_json status_ok (customer_body c)), r')
  unfolding Created write_json
  read_back req r₁ e got h =
      let both = sym (serve_post decode body now r ∙ ap answer_with e) ∙ h in
      let same : resp_of (made now req r) ≡ c = ap (customer_in c) both in
      let repo : r₁ ≡ r' = ap (repo_in r') both in
      subst
        (λ (p : Resp × InMemoryRepo).
          serve decode (get_customer p.0.id) later p.1
          ≡ some (answer (write_json status_ok (customer_body p.0)), p.1))
        (λ i. (same i, repo i))
        (serve_get decode b'c' _ later r₁ ∙ ap (λ x. some (answer x, r₁)) got)

  by_case :
      (o : Result CreateReq)
      → CreationIs o now r (handle_create decode body now r)
      → Created
      → serve decode (get_customer c.id) later r'
        ≡ some (answer (write_json status_ok (customer_body c)), r')
  unfolding write_json
  by_case (err e) out h = absurd (not_created _ (inl refl) out h)
  by_case (ok req) (inl (e, bad, out)) h = absurd (not_created _ (inl refl) out h)
  by_case (ok req) (inr (inl (valid, old, out))) h = absurd (not_created _ (inr refl) out h)
  by_case (ok req) (inr (inr (valid, new, (r₁, out, got)))) h = read_back req r₁ out got h

  -- Through the routes of m10: when `POST /v1/customers` answered 201 with a customer, `GET
  -- /v1/customers/{id}` for the id in the answer answers 200 with the same customer, at any later time
  -- and whatever the body was, as long as the repository's number fits a 64-bit `int`.
  pub serve-create-get :
      suc r.seq ≤ max_int64
      → serve decode (post_customer body) now r
        ≡ some (answer (write_json status_created (customer_body c)), r')
      → serve decode (get_customer c.id) later r'
        ≡ some (answer (write_json status_ok (customer_body c)), r')
  unfolding Created
  serve-create-get fits h =
      by_case (decode body) (handle_create-CreationIs decode body now r fits) h
