-- ===== src/Capstone/Api/Routes.antt =====
-- m14-capstone/api/handler.go: `Handler.Routes`, and a request's way through it.
use go_learning.Common.{List, [], ◌∷◌, Option, Bytes, ◌≡◌, refl}
use go_learning.GoErrors.{str, Err}
use go_learning.GoMux.{Pattern, literal, Routed, found_route, method_not_allowed, no_route, route}
use go_learning.Capstone.Api.{Env, Request, Response, World, create, healthz}

pub data Endpoint : Type 0 where
  healthz_endpoint create_endpoint : Endpoint

unfoldable pub routes : List (Pattern × Endpoint)
routes =
    (record { method = str "GET"; path = literal (str "healthz") ∷ [] }, healthz_endpoint)
    ∷ (
      record { method = str "POST"; path = literal (str "v1") ∷ literal (str "customers") ∷ [] },
      create_endpoint,
    )
    ∷ []

-- What the handlers answer, or the mux itself.
pub data Reply : Type 0 where
  answer : Response → Reply
  not_allowed_405 not_found_404 : Reply

abbrev pub answer_with : World × Response → World × Reply
answer_with (w, response) = (w, answer response)

abbrev pub dispatched : Env → Request → Option Err → World → Routed Endpoint → World × Reply
dispatched env q published w (found_route healthz_endpoint value) = answer_with (healthz w)
dispatched env q published w (found_route create_endpoint value) =
    answer_with (create env q published w)
dispatched env q published w method_not_allowed = (w, not_allowed_405)
dispatched env q published w no_route = (w, not_found_404)

-- `published`: the error of `js.Publish`, if the handler comes to it.
unfoldable pub serve :
    Env → (method : Bytes) → (path : List Bytes) → Request → Option Err → World → World × Reply
serve env method path q published w = dispatched env q published w (route routes method path)

-- `POST /v1/customers` is a creation.
pub serve-create :
    (env : Env) (q : Request) (published : Option Err) (w : World)
    → serve env (str "POST") (str "v1" ∷ str "customers" ∷ []) q published w
      ≡ answer_with (create env q published w)
unfolding serve routes route
serve-create env q published w = refl
