-- ===== src/RestApi/Wire.antt =====
-- m04-rest-api/solution-httpapi: what a handler sees and does. A handler takes the request and the
-- world (the shared state of the server and the response under construction) and returns the world
-- or panics in it. From errors.go `respondError`; from json.go `writeJSON` and `decodeJSON`.
use go_learning.Common.{
  ℕ, List, [], ◌∷◌, ◌++◌, Option, none, some, Bool, Bytes, nat_eq, if◌then◌else◌,
}
use go_learning.Common.Int.{ℤ}
use go_learning.Common.GoMap.{MapOrder}
use go_learning.GoErrors.{str, Err, text, wrapped, message}
use go_learning.GoHttp.{set_header, status_internal}
use go_learning.RestApi.Customer.{Customer}
use go_learning.RestApi.Repo.{InMemoryRepo, Result, ok, err}
use go_learning.RestApi.Errors.{code_of, http_status}

pub record CreateCustomerRequest : Type 0 where
  pub email : Bytes
  pub name : Bytes

pub record CustomerResponse : Type 0 where
  pub id : Bytes
  pub email : Bytes
  pub name : Bytes
  pub created_at : Bytes

pub record ListResponse : Type 0 where
  pub items : List CustomerResponse
  pub page : ℤ
  pub total_pages : ℤ
  pub total : ℤ
  pub has_next : Bool

-- The values that handlers encode as JSON; `router_text` is the router's own answer.
pub data Payload : Type 0 where
  health_body : Payload
  error_body : (code msg : Bytes) → Payload
  customer_body : CustomerResponse → Payload
  list_body : ListResponse → Payload
  router_text : Payload

pub data LogEntry : Type 0 where
  http_request : (method path : Bytes) (status : ℕ) (request_id : Bytes) → LogEntry
  panic_recovered : (request_id : Bytes) → LogEntry

-- `query` is `r.URL.Query()`; `now` is the clock while the request is served; `request_id` is the
-- value under `ridKey` in the context.
pub record Request : Type 0 where
  pub method : Bytes
  pub path : Bytes
  pub headers : List (Bytes × Bytes)
  pub query : List (Bytes × Bytes)
  pub body : Bytes
  pub now : ℕ
  pub request_id : Option Bytes

-- `status` is what `WriteHeader` sent first, `recorded` the `status` of the `statusRecorder`.
pub record World : Type 0 where
  pub repo : InMemoryRepo
  pub rid_seq : ℕ
  pub log : List LogEntry
  pub headers : List (Bytes × Bytes)
  pub status : Option ℕ
  pub recorded : ℕ
  pub body : List Payload

pub data Outcome : Type 0 where
  returned : World → Outcome
  panicked : World → Outcome

-- A route that the router has matched; `unmatched` holds the status that it answers by itself, and
-- whether the path lies below the group `/v1`, whose middleware runs first.
pub data Route : Type 0 where
  healthz post_customers get_customers : Route
  get_customer_by : Bytes → Route
  unmatched : ℕ → Bool → Route

-- What `json.Decoder.Decode` with `DisallowUnknownFields` finds in a body, and whether `More`.
pub data Decoded : Type 0 where
  failed : Err → Decoded
  decoded : CreateCustomerRequest → Bool → Decoded

-- What the handlers take from libraries and from their construction.
pub record Env : Type 0 where
  pub token : Bytes
  pub order : MapOrder Bytes Customer
  pub rfc3339 : ℕ → Bytes
  pub decode : ℕ → Bytes → Decoded
  pub chi : Bytes → Bytes → Route

-- `WriteHeader` through the recorder: the first status is sent, the last one recorded.
abbrev pub sent : Option ℕ → ℕ → ℕ
sent none code = code
sent (some first) code = first

unfoldable pub write_header : ℕ → World → World
write_header code w = record w { status = some (sent w.status code); recorded = code }

unfoldable pub write_json : ℕ → Payload → World → World
unfolding write_header
write_json status v w =
    let w₁ = record w {
      headers = set_header (str "Content-Type") (str "application/json") w.headers;
    } in
    let w₂ = write_header status w₁ in record w₂ { body = w₂.body ++ v ∷ [] }

abbrev pub max_body_bytes : ℕ
max_body_bytes = 1048576

abbrev checked : Decoded → Result CreateCustomerRequest
checked (failed e) = err (wrapped (str "decode body: ") e)
checked (decoded v more) =
    if more then err (text (str "body must contain a single JSON object")) else ok v

unfoldable pub decode_json : Env → Request → Result CreateCustomerRequest
decode_json env r = checked (env.decode max_body_bytes r.body)

abbrev pub internal_message : Bytes
internal_message = str "internal server error"

-- On a nil error the call of `err.Error()` panics.
unfoldable pub respond_error : Option Err → World → Outcome
respond_error none w = panicked w
respond_error (some e) w =
    let code = code_of e in
    let status = http_status code in
    let msg = if nat_eq status status_internal then internal_message else message e in
    returned (write_json status (error_body code msg) w)
