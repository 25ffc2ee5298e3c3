-- ===== src/Capstone/Api/Laws.antt =====
-- How a creation is answered, and what it leaves.
use go_learning.Common.{
  ◌++◌, Option, none, some, true, false, Bytes, bytes_eq_refl, string_comparable, ◌≡◌, ◌⊎◌, refl,
  inl, inr, Bool-cases, Option-cases, if◌then◌else◌, ◌==◌,
}
use go_learning.Common.GoMap.{lookup, lookup-insert}
use go_learning.GoErrors.{str, Err}
use go_learning.GoHttp.{status_created, status_bad_request}
use go_learning.Capstone.Domain.{Customer}
use go_learning.Capstone.Events.{publish_customer_created}
use go_learning.Capstone.Api.{
  Request, Env, CreateReq, Response, World, write_json, error_body, customer_body, new_customer,
  event_of, store_and_publish, is_refused, create,
}

-- The request was refused by 400, and nothing changed.
abbrev pub Refused : World → World × Response → Type 0
Refused w out =
    (out.0 ≡ w)
    × ((msg : Bytes) × (out.1 ≡ write_json status_bad_request (error_body (str "VALIDATION") msg)))

-- The customer was stored, the others kept, the event handed to the publisher, the answer 201.
abbrev pub Created : Env → Customer → Option Err → World → World × Response → Type 0
Created env c answer w out =
    (out.1 ≡ write_json status_created (customer_body c))
    × (lookup c.id out.0.by_id ≡ some c)
    × ((other : Bytes)
        → lookup other out.0.by_id ≡ (if c.id == other then some c else lookup other w.by_id))
    × (out.0.stream ≡ w.stream ++ (publish_customer_created env.marshal answer (event_of c)).1)

store_and_publish-Created :
    (env : Env) (c : Customer) (answer : Option Err) (w : World)
    → Created env c answer w (store_and_publish env answer c w)
unfolding store_and_publish
store_and_publish-Created env c answer w = (
  refl,
  rw (lookup-insert c.id c.id c w.by_id) (rw (bytes_eq_refl c.id)),
  λ other. lookup-insert c.id other c w.by_id,
  refl,
)

-- A creation is refused by 400, with nothing stored and nothing published, when the body does not
-- decode or its e-mail address has no "@" or its name is blank. Otherwise it is answered by 201 with
-- the customer, who is then stored under the new id, all others being as before, and the stream grows
-- by what the publisher makes of the customer's event. The answer of the broker changes only that
-- last part.
pub create_answers :
    (env : Env) (r : Request) (answer : Option Err) (w : World)
    → ((((env.decode r.body ≡ none)
            ⊎ ((req : CreateReq) × (env.decode r.body ≡ some req) × (is_refused req ≡ true)))
          × Refused w (create env r answer w))
        ⊎ ((req : CreateReq) × (env.decode r.body ≡ some req)
            × (is_refused req ≡ false)
            × Created env (new_customer r req) answer w (create env r answer w)))
unfolding create
create_answers env r answer w = elim (Option-cases (env.decode r.body)) [
  | inl bad ↦ rw bad (inl (inl refl, (refl, (str "invalid JSON", refl))))
  | inr (req, is_req) ↦ elim (Bool-cases (is_refused req)) [
    | inl no_good ↦
        rw (is_req) (
          rw no_good
            (inl (inr (req, refl, no_good), (refl, (str "email and name required", refl)))))
    | inr good ↦ rw is_req (
        rw good
          (inr (req, refl, good, store_and_publish-Created env (new_customer r req) answer w)))
  ]
]

-- A request that decodes and passes the test.
pub create_accepted :
    (env : Env) (r : Request) (answer : Option Err) (w : World) (req : CreateReq)
    → env.decode r.body ≡ some req
    → is_refused req ≡ false
    → create env r answer w ≡ store_and_publish env answer (new_customer r req) w
unfolding create
create_accepted env r answer w req is_req good = rw is_req (rw good)
