-- ===== src/RestApi/Handler.antt =====
-- m04-rest-api/solution-httpapi/handler.go: redaction, pagination and the handlers.
pub mod Redact
use mathlib.Core.Option
use go_learning.Common.{
  ℕ, List, [], ◌∷◌, ◌++◌, Option, none, some, Bool, true, false, not, Bytes, bytes_eq,
  if◌then◌else◌, length, take,
}
use go_learning.Common.Int.{ℤ, pos, ltb_ℤ, add64, sub64, mul64, quot}
use go_learning.Decimal.{atoi}
use go_learning.Genx.{slice, at_least_one, at_most}
use go_learning.GoErrors.{str, Err}
use go_learning.GoHttp.{get_header, status_ok, status_created}
use go_learning.GoStrings.{index_byte, slice_from}
use go_learning.RestApi.Customer.{Customer, validate}
use go_learning.RestApi.Repo.{
  InMemoryRepo, Result, ok, err, service_create, service_get, service_list,
}
use go_learning.RestApi.Errors.{with_code, code_validation}
use go_learning.RestApi.Wire.{
  Env, Request, World, Outcome, returned, panicked, CreateCustomerRequest, CustomerResponse,
  health_body, customer_body, list_body, decode_json, respond_error, write_json,
}

abbrev pub stars : Bytes
stars = str "***"

abbrev pub hidden : Bytes → Bytes → Bytes
hidden front rest = front ++ (stars ++ rest)

-- `none` is the panic of `e[at:]`.
unfoldable pub redact_email : Bytes → Option Bytes
redact_email e =
    let at = index_byte e b'@' in
    Option.map (hidden (if ltb_ℤ (pos 1) at then take 1 e else [])) (slice_from e at)

abbrev pub customer_response : Env → Customer → Bytes → CustomerResponse
customer_response env c email = record {
  id = c.id;
  email = email;
  name = c.name;
  created_at = env.rfc3339 c.created_at;
}

unfoldable pub to_response : Env → Customer → Bool → Option CustomerResponse
to_response env c redact_pii =
    Option.map (customer_response env c) (if redact_pii then redact_email c.email else some c.email)

pub record PageView : Type 0 where
  pub items : List Customer
  pub page : ℤ
  pub size : ℤ
  pub total : ℤ
  pub total_pages : ℤ
  pub has_next : Bool

abbrev pub page_view : ℤ → ℤ → ℤ → ℤ → List Customer → PageView
page_view page size total total_pages window = record {
  items = window;
  page = page;
  size = size;
  total = total;
  total_pages = total_pages;
  has_next = ltb_ℤ page total_pages;
}

-- `none` is the panic of the slice expression.
unfoldable pub paginate_customers : List Customer → ℤ → ℤ → Option PageView
paginate_customers items page₀ size₀ =
    let page = at_least_one page₀ (pos 1) in
    let size = at_least_one size₀ (pos 20) in
    let total = pos (length items) in
    let start = at_most (mul64 (sub64 page (pos 1)) size) total in
    let end = at_most (add64 start size) total in
    let total_pages = quot (sub64 (add64 total size) (pos 1)) size in
    Option.map (page_view page size total total_pages) (slice start end items)

unfoldable pub atoi_default : Bytes → ℤ → ℤ
atoi_default s def = Option.get_or (atoi s) def

-- True when e-mail addresses are to be redacted.
unfoldable pub pii : Request → Bool
pii r = not (bytes_eq (get_header (str "X-Scope") r.headers) (str "pii"))

-- A response that may have panicked on the way.
abbrev pub write_customer : ℕ → Option CustomerResponse → World → Outcome
write_customer status none w = panicked w
write_customer status (some v) w = returned (write_json status (customer_body v) w)

unfoldable pub health : Request → World → Outcome
health r w = returned (write_json status_ok health_body w)

module _ (env : Env) where
  abbrev pub created : Request → World → Result Customer × InMemoryRepo → Outcome
  created r w (err e, repo) = respond_error (some e) (record w { repo = repo })
  created r w (ok c, repo) =
      write_customer status_created (to_response env c (pii r)) (record w { repo = repo })

  abbrev pub validated : Request → World → Customer → Option Err → Outcome
  validated r w c (some e) = respond_error (some e) w
  validated r w c none = created r w (service_create r.now c w.repo)

  abbrev pub requested : CreateCustomerRequest → Customer
  requested req = record {
    id = [];
    email = req.email;
    name = req.name;
    created_at = 0;
    updated_at = 0;
  }

  abbrev pub create_decoded : Request → World → Result CreateCustomerRequest → Outcome
  create_decoded r w (err e) = respond_error (with_code (some e) code_validation) w
  create_decoded r w (ok req) = validated r w (requested req) (validate (requested req))

  unfoldable pub create_customer : Request → World → Outcome
  create_customer r w = create_decoded r w (decode_json env r)

  abbrev pub answered : Request → World → Result Customer → Outcome
  answered r w (err e) = respond_error (some e) w
  answered r w (ok c) = write_customer status_ok (to_response env c (pii r)) w

  unfoldable pub get_customer : Bytes → Request → World → Outcome
  get_customer id r w = answered r w (service_get id w.repo)

  -- The loop that fills `items`; `none` when one of the calls of `toResponse` panics.
  unfoldable pub to_responses : Bool → List Customer → Option (List CustomerResponse)
  to_responses redact_pii [] = some []
  to_responses redact_pii (c ∷ cs) = elim (to_response env c redact_pii) [
    | none ↦ none
    | some v ↦ Option.map (λ vs. v ∷ vs) (to_responses redact_pii cs)
  ]

  abbrev pub write_list : World → PageView → Option (List CustomerResponse) → Outcome
  write_list w p none = panicked w
  write_list w p (some items) = returned (
      write_json status_ok
        (list_body (record {
          items = items;
          page = p.page;
          total_pages = p.total_pages;
          total = p.total;
          has_next = p.has_next;
        }))
        w)

  abbrev pub list_page : Request → World → Option PageView → Outcome
  list_page r w none = panicked w
  list_page r w (some p) = write_list w p (to_responses (pii r) p.items)

  unfoldable pub list_customers : Request → World → Outcome
  list_customers r w =
      let page = atoi_default (get_header (str "page") r.query) (pos 1) in
      let size = atoi_default (get_header (str "size") r.query) (pos 20) in
      list_page r w (paginate_customers (service_list env.order w.repo) page size)
