-- ===== src/RestApi/Api/Guarded.antt =====
-- Nothing below /v1 is reached without the server's token.
use go_learning.Common.{
  [], ◌∷◌, ◌++◌, Option, none, some, true, false, Bytes, ◌≡◌, ◌≢◌, ◌⊎◌, refl, arith, inl, inr,
  Bool-cases, bytes_eq, bytes_eq_iff,
}
use go_learning.GoErrors.{str, Err, text, message, as_coded}
use go_learning.GoHttp.{get_header, set_header, status_ok}
use go_learning.GoStrings.{trim_prefix}
use go_learning.RestApi.Errors.{with_code, code_unauthorized, code_of, http_status}
use go_learning.RestApi.Wire.{
  Env, Request, World, Outcome, returned, Route, healthz, post_customers, get_customers,
  get_customer_by, unmatched, respond_error, write_json, error_body,
}
use go_learning.RestApi.Middleware.{
  HttpHandler, with_id, logged, recovered, routes, recover, logging, request_id, new_request_id,
  bearer_auth, unauthorized, dispatch,
}

-- The routes of the group `/v1`.
abbrev pub IsV1 : Route → Type 0
IsV1 healthz = ⊥
IsV1 post_customers = Unit
IsV1 get_customers = Unit
IsV1 (get_customer_by id) = Unit
IsV1 (unmatched status below_v1) = below_v1 ≡ true

-- The text after "Bearer " in the request's `Authorization` header.
abbrev pub presented : Request → Bytes
presented r = trim_prefix (get_header (str "Authorization") r.headers) (str "Bearer ")

unauthorized_of :
    (token : Bytes) (r : Request)
    → (presented r ≢ token) ⊎ (token ≡ [])
    → unauthorized token r ≡ true
unfolding unauthorized
unauthorized_of token r h =
    ground (arith, bytes_eq_iff (presented r) [], bytes_eq_iff (presented r) token)

abbrev denied : Option Err
denied = with_code (some (text (str "unauthorized"))) code_unauthorized

dispatch-denied :
    (env : Env) (route : Route) (r : Request) (w : World)
    → IsV1 route
    → unauthorized env.token r ≡ true
    → dispatch env route r w ≡ respond_error denied w
unfolding dispatch bearer_auth
dispatch-denied env healthz r w v h = absurd v
dispatch-denied env post_customers r w v h = rw h
dispatch-denied env get_customers r w v h = rw h
dispatch-denied env (get_customer_by id) r w v h = rw h
dispatch-denied env (unmatched status true) r w v h = rw h
dispatch-denied env (unmatched status false) r w v h = absurd (clash v)
  where
    clash : false ≡ true → ⊥
    clash p = cc

abbrev pub denial : Bytes
denial = str "UNAUTHORIZED: unauthorized"

-- The request was refused: 401 with the code "UNAUTHORIZED", and nothing stored has changed.
abbrev pub IsDenied : World → Outcome → Type 0
IsDenied w o =
    (w' : World) × (o ≡ returned w')
    × (w'.status ≡ some 401)
    × (w'.repo ≡ w.repo)
    × (w'.body ≡ w.body ++ error_body code_unauthorized denial ∷ [])

denied_answer :
    (r r' : Request) (w v : World)
    → v.status ≡ none
    → v.repo ≡ w.repo
    → v.body ≡ w.body
    → IsDenied w (recovered r (logged r' (respond_error denied v)))
unfolding respond_error with_code code_of as_coded http_status write_json message
denied_answer r r' w v h same_repo same_body = (_, refl, rw h, same_repo, rw same_body)

identified-denied :
    (next : HttpHandler) (r : Request) (w : World) (id : Bytes) (v : World)
    → v.status ≡ none
    → v.repo ≡ w.repo
    → v.body ≡ w.body
    → ((id : Option Bytes) (w' : World)
        → next (record r { request_id = id }) w' ≡ respond_error denied w')
    → IsDenied w (recovered r (with_id (logging next) r (id, v)))
unfolding logging
identified-denied next r w id v h same_repo same_body all =
    let r' : Request = record r { request_id = some id } in
    let v' : World = record v {
      headers = set_header (str "X-Request-Id") id v.headers;
      recorded = status_ok;
    } in
    rw (all (some id) v') (denied_answer r r' w v' h same_repo same_body)

-- A request for a route below /v1 whose `Authorization` header does not carry the server's token
-- gets 401 with the code "UNAUTHORIZED" and leaves the repository as it was; with an empty token
-- on the server, every such request does.
pub routes-IsDenied :
    (env : Env) (r : Request) (w : World)
    → w.status ≡ none
    → IsV1 (env.chi r.method r.path)
    → (presented r ≢ env.token) ⊎ (env.token ≡ [])
    → IsDenied w (routes env r w)
unfolding routes recover request_id new_request_id
routes-IsDenied env r w h v no_token =
    let next : HttpHandler = λ r'. dispatch env (env.chi r'.method r'.path) r' in
    let all : (id : Option Bytes) (w' : World)
        → next (record r { request_id = id }) w' ≡ respond_error denied w' =
      λ id w'.
        dispatch-denied env (env.chi r.method r.path) (record r { request_id = id }) w' v
          (unauthorized_of env.token (record r { request_id = id }) no_token) in
    elim (Bool-cases (bytes_eq (get_header (str "X-Request-Id") r.headers) [])) [
      | inl fresh ↦ rw fresh (identified-denied next r w _ _ h refl refl all)
      | inr given ↦ rw given (identified-denied next r w _ w h refl refl all)
    ]
