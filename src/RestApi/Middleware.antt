-- ===== src/RestApi/Middleware.antt =====
-- m04-rest-api/solution-httpapi/middleware.go, and `Routes` of handler.go.
use go_learning.Common.{
  ℕ, ◌+◌, ◌%◌, [], ◌∷◌, ◌++◌, none, some, Bool, not, ◌||◌, Bytes, bytes_eq, if◌then◌else◌,
}
use go_learning.Common.Int.{word}
use go_learning.Decimal.{padded}
use go_learning.GoErrors.{str, text}
use go_learning.GoHttp.{get_header, set_header, status_ok}
use go_learning.GoStrings.{trim_prefix}
use go_learning.RestApi.Errors.{with_code, code_internal, code_unauthorized}
use go_learning.RestApi.Wire.{
  Env, Request, World, Outcome, returned, panicked, Route, healthz, post_customers, get_customers,
  get_customer_by, unmatched, http_request, panic_recovered, router_text, respond_error,
  write_header,
}
use go_learning.RestApi.Handler.{health, create_customer, get_customer, list_customers}

abbrev pub HttpHandler : Type 0
HttpHandler = Request → World → Outcome

-- `ridSeq.Add(1)` on an `atomic.Uint64`, and the id made of its result.
unfoldable pub new_request_id : World → Bytes × World
new_request_id w =
    let n = (w.rid_seq + 1) % word in (str "req_" ++ padded 8 n, record w { rid_seq = n })

unfoldable pub request_id_from : Request → Bytes
request_id_from r = elim r.request_id [ none ↦ [] | some id ↦ id ]

abbrev pub with_id : HttpHandler → Request → Bytes × World → Outcome
with_id next r (id, w) =
    next (record r { request_id = some id })
      (record w { headers = set_header (str "X-Request-Id") id w.headers })

unfoldable pub request_id : HttpHandler → HttpHandler
request_id next r w =
    let id = get_header (str "X-Request-Id") r.headers in
    with_id next r (if bytes_eq id [] then new_request_id w else (id, w))

abbrev pub logged : Request → Outcome → Outcome
logged r (panicked w) = panicked w
logged r (returned w) =
    returned
      (record w { log = w.log ++ http_request r.method r.path w.recorded (request_id_from r) ∷ [] })

unfoldable pub logging : HttpHandler → HttpHandler
logging next r w = logged r (next r (record w { recorded = status_ok }))

abbrev pub recovered : Request → Outcome → Outcome
recovered r (returned w) = returned w
recovered r (panicked w) =
    respond_error (with_code (some (text (str "panic"))) code_internal)
      (record w { log = w.log ++ panic_recovered (request_id_from r) ∷ [] })

unfoldable pub recover : HttpHandler → HttpHandler
recover next r w = recovered r (next r w)

-- The test of `BearerAuth`.
unfoldable pub unauthorized : Bytes → Request → Bool
unauthorized token r =
    let got = trim_prefix (get_header (str "Authorization") r.headers) (str "Bearer ") in
    bytes_eq got [] || not (bytes_eq got token)

unfoldable pub bearer_auth : Bytes → HttpHandler → HttpHandler
bearer_auth token next r w =
    if unauthorized token r
    then respond_error (with_code (some (text (str "unauthorized"))) code_unauthorized) w
    else next r w

-- The router's own answer to a path or a method that no route has.
abbrev pub router_answer : ℕ → HttpHandler
router_answer status r w =
    returned (record (write_header status w) { body = w.body ++ router_text ∷ [] })

unfoldable pub dispatch : Env → Route → HttpHandler
dispatch env healthz r w = health r w
dispatch env post_customers r w = bearer_auth env.token (create_customer env) r w
dispatch env get_customers r w = bearer_auth env.token (list_customers env) r w
dispatch env (get_customer_by id) r w = bearer_auth env.token (get_customer env id) r w
dispatch env (unmatched status below_v1) r w =
    if below_v1 then bearer_auth env.token (router_answer status) r w else router_answer status r w

-- The router runs the middleware before it dispatches.
unfoldable pub routes : Env → HttpHandler
routes env = recover (request_id (logging (λ r. dispatch env (env.chi r.method r.path) r)))
