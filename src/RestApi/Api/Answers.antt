-- ===== src/RestApi/Api/Answers.antt =====
-- Every request is answered once, no panic gets past `Recover`, and error answers leak nothing.
use go_learning.Common.{
  ℕ, List, [], ◌∷◌, ◌++◌, none, some, true, false, Option-cases, ◌≢◌, Bytes, ◌≡◌, refl, ◌⊎◌, ap,
  subst, if◌then◌else◌, inl, inr, Bool-cases, nat_eq, bytes_eq, bytes_eq_iff,
}
use go_learning.GoHttp.{get_header, set_header, status_ok}
use go_learning.GoErrors.{
  str, as_coded, Err, message, is, as_validation, customer_not_found, customer_conflict,
}
use go_learning.RestApi.Errors.{
  code_of, http_status, with_code, code_not_found, code_validation, code_conflict,
  code_unauthorized,
}
use go_learning.RestApi.Wire.{
  Env, Request, World, Outcome, returned, panicked, error_body, internal_message, respond_error,
  write_json, write_header, sent, LogEntry, http_request, panic_recovered,
}
use go_learning.RestApi.Middleware.{
  HttpHandler, with_id, logged, recovered, routes, recover, logging, request_id, new_request_id,
  dispatch, request_id_from,
}
use go_learning.RestApi.Api.OneAnswer.{OneAnswer, dispatch-OneAnswer}

-- Why an error has a code: it carries it; or it is known as a missing customer, as a conflict, or as a
-- failed validation, in this order; or it is known as none of these.
abbrev pub HasCode : Err → Bytes → Type 0
HasCode e code =
    (as_coded e ≡ some code)
    ⊎ ((as_coded e ≡ none)
        × (((is customer_not_found e ≡ true) × (code ≡ str "NOT_FOUND"))
            ⊎ ((is customer_not_found e ≡ false)
                × (((is customer_conflict e ≡ true) × (code ≡ str "CONFLICT"))
                    ⊎ ((is customer_conflict e ≡ false)
                        × (((field : Bytes) × (as_validation e ≡ some field)
                              × (code ≡ str "VALIDATION"))
                            ⊎ ((as_validation e ≡ none) × (code ≡ str "INTERNAL"))))))))

code_of-HasCode : (e : Err) → HasCode e (code_of e)
unfolding code_of
code_of-HasCode e = elim (Option-cases (as_coded e)) [
  | inr (c, carried) ↦ rw carried (inl refl)
  | inl plain ↦ rw plain (
      inr (
        refl,
        elim (Bool-cases (is customer_not_found e)) [
          | inl missing ↦ rw missing (inl (refl, refl))
          | inr there ↦ rw there (
              inr (
                refl,
                elim (Bool-cases (is customer_conflict e)) [
                  | inl taken ↦ rw taken (inl (refl, refl))
                  | inr free ↦ rw free (
                      inr (
                        refl,
                        elim (Option-cases (as_validation e)) [
                          | inl valid ↦ rw valid (inr (refl, refl))
                          | inr (field, invalid) ↦ rw invalid (inl (field, refl, refl))
                        ],
                      ))
                ],
              ))
        ],
      ))
]

-- What an error answer may say: the error's own text only with one of the four client codes, under its
-- status, and with any other code a fixed text under 500.
abbrev pub IsSafeAnswer : Err → ℕ → Bytes → Bytes → Type 0
IsSafeAnswer e status code msg =
    ((status ≡ 500)
      × (msg ≡ str "internal server error")
      × (code ≢ str "NOT_FOUND")
      × (code ≢ str "VALIDATION")
      × (code ≢ str "CONFLICT")
      × (code ≢ str "UNAUTHORIZED"))
    ⊎ ((msg ≡ message e)
        × (((status ≡ 404) × (code ≡ str "NOT_FOUND"))
            ⊎ ((status ≡ 400) × (code ≡ str "VALIDATION"))
            ⊎ ((status ≡ 409) × (code ≡ str "CONFLICT"))
            ⊎ ((status ≡ 401) × (code ≡ str "UNAUTHORIZED"))))

other_code : (c d : Bytes) → bytes_eq c d ≡ false → c ≢ d
other_code c d h e = let same : bytes_eq c d ≡ true = (bytes_eq_iff c d).1 e in cc

safe_status :
    (e : Err) (c : Bytes)
    → IsSafeAnswer e
        (http_status c)
        c
        (if nat_eq (http_status c) 500 then internal_message else message e)
unfolding http_status
safe_status e c = elim (Bool-cases (bytes_eq c code_not_found)) [
  | inl a ↦ rw a (inr (refl, inl (refl, (bytes_eq_iff _ _).0 a)))
  | inr na ↦ elim (Bool-cases (bytes_eq c code_validation)) [
    | inl b ↦ rw (na, b) (inr (refl, inr (inl (refl, (bytes_eq_iff _ _).0 b))))
    | inr nb ↦ elim (Bool-cases (bytes_eq c code_conflict)) [
      | inl d ↦ rw (na, nb, d) (inr (refl, inr (inr (inl (refl, (bytes_eq_iff _ _).0 d)))))
      | inr nd ↦ elim (Bool-cases (bytes_eq c code_unauthorized)) [
        | inl u ↦ rw (na, nb, nd, u) (inr (refl, inr (inr (inr (refl, (bytes_eq_iff _ _).0 u)))))
        | inr nu ↦
            rw (na, nb, nd, nu)
              (inl (
                refl,
                refl,
                other_code c code_not_found na,
                other_code c code_validation nb,
                other_code c code_conflict nd,
                other_code c code_unauthorized nu,
              ))
      ]
    ]
  ]
]

-- `respondError` answers any error, before anything was sent, by a status and one body with a code and
-- a text, and does not touch the repository. The code is the one that the error carries; without one,
-- it is NOT_FOUND, CONFLICT or VALIDATION when the error is known as that, looked for in this order,
-- and INTERNAL when it is known as none of these. The four client codes go out under 404, 400, 409 and
-- 401 with the error's own text; any other code, INTERNAL included, goes out under 500 with a fixed
-- text in its place.
pub respond_error-IsSafe :
    (e : Err) (w : World)
    → w.status ≡ none
    → (w' : World) × (status : ℕ) × (code : Bytes) × (msg : Bytes) × (respond_error (some e) w
        ≡ returned w')
      × (w'.status ≡ some status)
      × (w'.body ≡ w.body ++ error_body code msg ∷ [])
      × (w'.repo ≡ w.repo)
      × HasCode e code
      × IsSafeAnswer e status code msg
unfolding respond_error write_json write_header
respond_error-IsSafe e w unsent = (
  _,
  http_status (code_of e),
  code_of e,
  if nat_eq (http_status (code_of e)) 500 then internal_message else message e,
  refl,
  ap (λ s. some (sent s (http_status (code_of e)))) unsent,
  refl,
  refl,
  code_of-HasCode e,
  safe_status e (code_of e),
)

-- A request has been answered: one status went out, and one entry joined the log. That is the
-- entry of the request with the status that was sent, or, with status 500, that of a panic.
abbrev pub IsAnswered : Request → List LogEntry → Outcome → Type 0
IsAnswered r log o =
    (w' : World) × (status : ℕ) × (o ≡ returned w')
    × (w'.status ≡ some status)
    × (((id : Bytes) × (w'.log ≡ log ++ http_request r.method r.path status id ∷ []))
        ⊎ ((status ≡ 500) × (w'.log ≡ log ++ panic_recovered (request_id_from r) ∷ [])))

finish :
    (r : Request) (id : Bytes) (w : World) (o : Outcome)
    → OneAnswer w o
    → IsAnswered r w.log (recovered r (logged (record r { request_id = some id }) o))
unfolding request_id_from respond_error with_code code_of http_status write_json as_coded
finish r id w (returned w') (sent_one, same) = (
  _,
  w'.recorded,
  refl,
  sent_one,
  inl (id, ap (λ l. l ++ http_request r.method r.path w'.recorded id ∷ []) same),
)
finish r id w (panicked w') (nothing, same) = (
  _,
  500,
  refl,
  rw nothing,
  inr (refl, ap (λ l. l ++ panic_recovered (request_id_from r) ∷ []) same),
)

identified :
    (next : HttpHandler) (r : Request) (w : World) (id : Bytes) (v : World)
    → v.status ≡ none
    → v.log ≡ w.log
    → ((r' : Request) (w' : World) → w'.status ≡ none → OneAnswer w' (next r' w'))
    → IsAnswered r w.log (recovered r (with_id (logging next) r (id, v)))
unfolding logging
identified next r w id v h same all =
    let v' : World = record v {
      headers = set_header (str "X-Request-Id") id v.headers;
      recorded = status_ok;
    } in
    let answer = finish r id v' _ (all (record r { request_id = some id }) v' h) in
    subst (λ l. IsAnswered r l (recovered r (with_id (logging next) r (id, v)))) same answer

-- Every request is answered, whatever the route, the headers and the body: no panic leaves the
-- chain of middleware. One status is sent, and the request log shows that status; a handler that
-- panicked has sent nothing before, so the client gets 500, and the entry of the panic has the
-- request id that the context held before the middleware `RequestID` ran.
pub routes-IsAnswered :
    (env : Env) (r : Request) (w : World) → w.status ≡ none → IsAnswered r w.log (routes env r w)
unfolding routes recover request_id new_request_id
routes-IsAnswered env r w h =
    let next : HttpHandler = λ r'. dispatch env (env.chi r'.method r'.path) r' in
    let all : (r' : Request) (w' : World) → w'.status ≡ none → OneAnswer w' (next r' w') =
      λ r' w' h'. dispatch-OneAnswer env r' (env.chi r'.method r'.path) w' h' in
    elim (Bool-cases (bytes_eq (get_header (str "X-Request-Id") r.headers) [])) [
      | inl fresh ↦ rw fresh (identified next r w _ _ h refl all)
      | inr given ↦ rw given (identified next r w _ w h refl all)
    ]
