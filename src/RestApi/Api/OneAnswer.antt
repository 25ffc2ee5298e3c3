-- ===== src/RestApi/Api/OneAnswer.antt =====
-- What the handlers send.
use go_learning.Common.{ℕ, List, Option, none, some, true, false, ◌≡◌, refl, inl, inr, Bool-cases}
use go_learning.GoHttp.{status_ok, status_created}
use go_learning.GoErrors.{Err}
use go_learning.RestApi.Errors.{with_code, code_validation}
use go_learning.RestApi.Repo.{InMemoryRepo, Result, ok, err, service_create, service_get}
use go_learning.RestApi.Wire.{
  Env, Request, World, Outcome, returned, panicked, Route, Payload, respond_error, write_json,
  write_header, decode_json, customer_body, CustomerResponse, CreateCustomerRequest, healthz,
  post_customers, get_customers, get_customer_by, unmatched,
}
use go_learning.RestApi.Customer.{Customer, validate}
use go_learning.RestApi.Handler.{
  pii, to_response, write_customer, created, validated, requested, create_decoded, create_customer,
  answered, get_customer, PageView, write_list, to_responses, list_page, list_customers, health,
}
use go_learning.RestApi.Middleware.{HttpHandler, bearer_auth, unauthorized, dispatch}

-- A handler that starts with nothing sent has sent one status, which the recorder saw, or panicked
-- before it sent any; the log is as it was.
abbrev pub OneAnswer : World → Outcome → Type 0
OneAnswer w (returned w') = (w'.status ≡ some w'.recorded) × (w'.log ≡ w.log)
OneAnswer w (panicked w') = (w'.status ≡ none) × (w'.log ≡ w.log)

write_json-OneAnswer :
    (status : ℕ) (v : Payload) (w : World)
    → w.status ≡ none
    → OneAnswer w (returned (write_json status v w))
unfolding write_json
write_json-OneAnswer status v w h = (rw h, refl)

respond_error-OneAnswer :
    (e : Option Err) (w : World) → w.status ≡ none → OneAnswer w (respond_error e w)
unfolding respond_error
respond_error-OneAnswer none w h = (h, refl)
respond_error-OneAnswer (some e) w h = write_json-OneAnswer _ _ w h

write_customer-OneAnswer :
    (status : ℕ) (v : Option CustomerResponse) (w : World)
    → w.status ≡ none
    → OneAnswer w (write_customer status v w)
write_customer-OneAnswer status none w h = (h, refl)
write_customer-OneAnswer status (some v) w h = write_json-OneAnswer status (customer_body v) w h

module _ (env : Env) (r : Request) where
  created-OneAnswer :
      (w : World) (p : Result Customer × InMemoryRepo)
      → w.status ≡ none
      → OneAnswer w (created env r w p)
  created-OneAnswer w (err e, repo) h =
      respond_error-OneAnswer (some e) (record w { repo = repo }) h
  created-OneAnswer w (ok c, repo) h =
      write_customer-OneAnswer status_created (to_response env c (pii r)) (record w { repo = repo })
        h

  validated-OneAnswer :
      (w : World) (c : Customer) (e : Option Err)
      → w.status ≡ none
      → OneAnswer w (validated env r w c e)
  validated-OneAnswer w c (some e) h = respond_error-OneAnswer (some e) w h
  validated-OneAnswer w c none h = created-OneAnswer w (service_create r.now c w.repo) h

  create_decoded-OneAnswer :
      (w : World) (d : Result CreateCustomerRequest)
      → w.status ≡ none
      → OneAnswer w (create_decoded env r w d)
  create_decoded-OneAnswer w (err e) h =
      respond_error-OneAnswer (with_code (some e) code_validation) w h
  create_decoded-OneAnswer w (ok req) h =
      validated-OneAnswer w (requested env req) (validate (requested env req)) h

  answered-OneAnswer :
      (w : World) (c : Result Customer) → w.status ≡ none → OneAnswer w (answered env r w c)
  answered-OneAnswer w (err e) h = respond_error-OneAnswer (some e) w h
  answered-OneAnswer w (ok c) h = write_customer-OneAnswer status_ok (to_response env c (pii r)) w h

  write_list-OneAnswer :
      (w : World) (p : PageView) (items : Option (List CustomerResponse))
      → w.status ≡ none
      → OneAnswer w (write_list env w p items)
  write_list-OneAnswer w p none h = (h, refl)
  write_list-OneAnswer w p (some items) h = write_json-OneAnswer _ _ w h

  list_page-OneAnswer :
      (w : World) (p : Option PageView) → w.status ≡ none → OneAnswer w (list_page env r w p)
  list_page-OneAnswer w none h = (h, refl)
  list_page-OneAnswer w (some p) h = write_list-OneAnswer w p (to_responses env (pii r) p.items) h

  guarded-OneAnswer :
      (next : HttpHandler) (w : World)
      → w.status ≡ none
      → OneAnswer w (next r w)
      → OneAnswer w (bearer_auth env.token next r w)
  unfolding bearer_auth
  guarded-OneAnswer next w h k = elim (Bool-cases (unauthorized env.token r)) [
    | inl deny ↦ rw deny (respond_error-OneAnswer _ w h)
    | inr pass ↦ rw pass k
  ]

  pub dispatch-OneAnswer :
      (route : Route) (w : World) → w.status ≡ none → OneAnswer w (dispatch env route r w)
  unfolding dispatch health create_customer get_customer list_customers write_header
  dispatch-OneAnswer healthz w h = write_json-OneAnswer _ _ w h
  dispatch-OneAnswer post_customers w h =
      guarded-OneAnswer _ w h (create_decoded-OneAnswer w (decode_json env r) h)
  dispatch-OneAnswer get_customers w h = guarded-OneAnswer _ w h (list_page-OneAnswer w _ h)
  dispatch-OneAnswer (get_customer_by id) w h =
      guarded-OneAnswer _ w h (answered-OneAnswer w (service_get id w.repo) h)
  dispatch-OneAnswer (unmatched status true) w h = guarded-OneAnswer _ w h (rw h, refl)
  dispatch-OneAnswer (unmatched status false) w h = (rw h, refl)
