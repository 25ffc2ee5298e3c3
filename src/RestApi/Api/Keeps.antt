-- ===== src/RestApi/Api/Keeps.antt =====
-- What every request keeps of the repository, and that stored customers can be shown.
use go_learning.Common.{
  ℕ, List, [], Option, none, some, Bool, true, false, Bytes, string_comparable, ◌≡◌, refl, sym, ◌∙◌,
  arith, inl, inr, Bool-cases, bytes_eq, All, Option-cases,
}
use go_learning.GoErrors.{str, Err, join₂}
use go_learning.GoHttp.{get_header, set_header, status_ok, status_created}
use go_learning.GoStrings.{contains_byte}
use go_learning.RestApi.Customer.{Customer, validate}
use go_learning.RestApi.Errors.{with_code, code_validation}
use go_learning.RestApi.Repo.{InMemoryRepo, Result, ok, err, service_create, service_get}
use go_learning.RestApi.Repo.Laws.{IsValid}
use go_learning.RestApi.Wire.{
  Env, Request, World, Outcome, returned, panicked, Route, healthz, post_customers, get_customers,
  get_customer_by, unmatched, respond_error, write_json, write_header, decode_json,
  CreateCustomerRequest, CustomerResponse,
}
use go_learning.RestApi.Handler.{
  customer_response, pii, to_response, redact_email, write_customer, created, validated, requested,
  create_decoded, create_customer, answered, get_customer, PageView, write_list, to_responses,
  list_page, list_customers, health,
}
use go_learning.RestApi.Handler.Redact.{redact_email_panics_iff}
use go_learning.RestApi.Middleware.{
  HttpHandler, with_id, logged, recovered, routes, recover, logging, request_id, new_request_id,
  bearer_auth, unauthorized, dispatch,
}

-- The world at the end of a handler, also of one that panicked.
abbrev pub final : Outcome → World
final (returned w) = w
final (panicked w) = w

-- `P` is a property of the repository that every creation of a valid customer keeps.
module _ (P : InMemoryRepo → Type 0)
    (keep : (now : ℕ) (c : Customer) (r : InMemoryRepo)
      → validate c ≡ none
      → P r
      → P (service_create now c r).1) where
  respond_error-keeps : (e : Option Err) (w : World) → P w.repo → P (final (respond_error e w)).repo
  unfolding respond_error write_json
  respond_error-keeps none w h = h
  respond_error-keeps (some e) w h = h

  write_customer-keeps :
      (status : ℕ) (v : Option CustomerResponse) (w : World)
      → P w.repo
      → P (final (write_customer status v w)).repo
  unfolding write_json
  write_customer-keeps status none w h = h
  write_customer-keeps status (some v) w h = h

  module _ (env : Env) (r : Request) where
    created-keeps :
        (w : World) (p : Result Customer × InMemoryRepo)
        → P p.1
        → P (final (created env r w p)).repo
    created-keeps w (err e, repo) h = respond_error-keeps (some e) (record w { repo = repo }) h
    created-keeps w (ok c, repo) h =
        write_customer-keeps status_created (to_response env c (pii r)) (record w { repo = repo }) h

    validated-keeps :
        (w : World) (c : Customer) (e : Option Err)
        → validate c ≡ e
        → P w.repo
        → P (final (validated env r w c e)).repo
    validated-keeps w c (some e) v h = respond_error-keeps (some e) w h
    validated-keeps w c none v h =
        created-keeps w (service_create r.now c w.repo) (keep r.now c w.repo v h)

    create_decoded-keeps :
        (w : World) (d : Result CreateCustomerRequest)
        → P w.repo
        → P (final (create_decoded env r w d)).repo
    create_decoded-keeps w (err e) h = respond_error-keeps (with_code (some e) code_validation) w h
    create_decoded-keeps w (ok req) h =
        validated-keeps w (requested env req) (validate (requested env req)) refl h

    answered-keeps :
        (w : World) (c : Result Customer) → P w.repo → P (final (answered env r w c)).repo
    answered-keeps w (err e) h = respond_error-keeps (some e) w h
    answered-keeps w (ok c) h = write_customer-keeps status_ok (to_response env c (pii r)) w h

    list_page-keeps :
        (w : World) (p : Option PageView) → P w.repo → P (final (list_page env r w p)).repo
    unfolding write_json
    list_page-keeps w none h = h
    list_page-keeps w (some p) h = written (to_responses env (pii r) p.items)
      where
        written :
            (items : Option (List CustomerResponse)) → P (final (write_list env w p items)).repo
        written none = h
        written (some items) = h

    guarded-keeps :
        (next : HttpHandler) (w : World)
        → P w.repo
        → P (final (next r w)).repo
        → P (final (bearer_auth env.token next r w)).repo
    unfolding bearer_auth
    guarded-keeps next w h k = elim (Bool-cases (unauthorized env.token r)) [
      | inl deny ↦ rw deny (respond_error-keeps _ w h)
      | inr pass ↦ rw pass k
    ]

    dispatch-keeps :
        (route : Route) (w : World) → P w.repo → P (final (dispatch env route r w)).repo
    unfolding dispatch health create_customer get_customer list_customers write_header write_json
    dispatch-keeps healthz w h = h
    dispatch-keeps post_customers w h =
        guarded-keeps _ w h (create_decoded-keeps w (decode_json env r) h)
    dispatch-keeps get_customers w h = guarded-keeps _ w h (list_page-keeps w _ h)
    dispatch-keeps (get_customer_by id) w h =
        guarded-keeps _ w h (answered-keeps w (service_get id w.repo) h)
    dispatch-keeps (unmatched status true) w h = guarded-keeps _ w h h
    dispatch-keeps (unmatched status false) w h = h

  recovered-keeps :
      (r r' : Request) (o : Outcome) → P (final o).repo → P (final (recovered r (logged r' o))).repo
  recovered-keeps r r' (returned w) h = h
  recovered-keeps r r' (panicked w) h = respond_error-keeps _ _ h

  identified-keeps :
      (next : HttpHandler) (r : Request) (id : Bytes) (v : World)
      → ((r' : Request) (w' : World) → P w'.repo → P (final (next r' w')).repo)
      → P v.repo
      → P (final (recovered r (with_id (logging next) r (id, v)))).repo
  unfolding logging
  identified-keeps next r id v all h =
      let r' : Request = record r { request_id = some id } in
      let v' : World = record v {
        headers = set_header (str "X-Request-Id") id v.headers;
        recorded = status_ok;
      } in
      recovered-keeps r r' (next r' v') (all r' v' h)

  pub routes-keeps :
      (env : Env) (r : Request) (w : World) → P w.repo → P (final (routes env r w)).repo
  unfolding routes recover request_id new_request_id
  routes-keeps env r w h =
      let next : HttpHandler = λ r'. dispatch env (env.chi r'.method r'.path) r' in
      let all : (r' : Request) (w' : World) → P w'.repo → P (final (next r' w')).repo =
        λ r' w' h'. dispatch-keeps env r' (env.chi r'.method r'.path) w' h' in
      elim (Bool-cases (bytes_eq (get_header (str "X-Request-Id") r.headers) [])) [
        | inl fresh ↦ rw fresh (identified-keeps next r _ _ all h)
        | inr given ↦ rw given (identified-keeps next r _ w all h)
      ]

-- The repository is valid, and every stored customer has an "@" in its e-mail address.
abbrev pub IsGood : InMemoryRepo → Type 0
IsGood r = IsValid r × All (λ p. contains_byte b'@' p.1.email ≡ true) r.m

pub validate-contains : (c : Customer) → validate c ≡ none → contains_byte b'@' c.email ≡ true
unfolding validate join₂
validate-contains c h = ground arith

-- Such a customer can be shown, redacted or not.
pub to_response_total :
    (env : Env) (c : Customer) (redact_pii : Bool)
    → contains_byte b'@' c.email ≡ true
    → (v : CustomerResponse) × (to_response env c redact_pii ≡ some v)
      × (v.id ≡ c.id)
      × (v.name ≡ c.name)
unfolding to_response
to_response_total env c false h = (customer_response env c c.email, refl, refl, refl)
to_response_total env c true h = elim (Option-cases (redact_email c.email)) [
  | inl panics ↦ absurd (clash (sym h ∙ (redact_email_panics_iff c.email).0 panics))
  | inr (e, shows) ↦ (customer_response env c e, rw shows, refl, refl)
]
  where
    clash : true ≡ false → ⊥
    clash p = cc
