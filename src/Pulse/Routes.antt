-- ===== src/Pulse/Routes.antt =====
-- m10-project-structure/pulse/internal/customer/customer.go: `Handler.Routes`, and a request's way
-- through it.
pub mod Session
use go_learning.Common.{ℕ, List, [], ◌∷◌, Option, none, some, Bytes}
use go_learning.GoErrors.{str, Result}
use go_learning.GoMux.{
  Pattern, literal, wildcard, Routed, found_route, method_not_allowed, no_route, route,
}
use go_learning.Pulse.Customer.{InMemoryRepo}
use go_learning.Pulse.Handler.{CreateReq, Response, handle_create, handle_get, healthz}

pub data Endpoint : Type 0 where
  healthz_endpoint create_endpoint get_endpoint : Endpoint

abbrev pub customers_path : List Bytes
customers_path = str "v1" ∷ str "customers" ∷ []

unfoldable pub routes : List (Pattern × Endpoint)
routes =
    (record { method = str "GET"; path = literal (str "healthz") ∷ [] }, healthz_endpoint)
    ∷ (
      record { method = str "POST"; path = literal (str "v1") ∷ literal (str "customers") ∷ [] },
      create_endpoint,
    )
    ∷ (
      record {
        method = str "GET";
        path = literal (str "v1") ∷ literal (str "customers") ∷ wildcard ∷ [];
      },
      get_endpoint,
    )
    ∷ []

pub record Request : Type 0 where
  pub method : Bytes
  pub path : List Bytes
  pub body : Bytes

-- What the handlers answer, or the mux itself.
pub data Reply : Type 0 where
  answer : Response → Reply
  not_allowed_405 not_found_404 : Reply

abbrev pub answer_with : Option (Response × InMemoryRepo) → Option (Reply × InMemoryRepo)
answer_with none = none
answer_with (some (response, r)) = some (answer response, r)

abbrev pub at_endpoint :
    (Bytes → Result CreateReq)
    → Request
    → ℕ
    → InMemoryRepo
    → Endpoint
    → Bytes
    → Option (Reply × InMemoryRepo)
at_endpoint decode q now r healthz_endpoint value = some (answer healthz, r)
at_endpoint decode q now r create_endpoint value = answer_with (handle_create decode q.body now r)
at_endpoint decode q now r get_endpoint value = some (answer (handle_get value r), r)

abbrev pub dispatched :
    (Bytes → Result CreateReq)
    → Request
    → ℕ
    → InMemoryRepo
    → Routed Endpoint
    → Option (Reply × InMemoryRepo)
dispatched decode q now r (found_route e value) = at_endpoint decode q now r e value
dispatched decode q now r method_not_allowed = some (not_allowed_405, r)
dispatched decode q now r no_route = some (not_found_404, r)

-- `none` is a panic.
unfoldable pub serve :
    (Bytes → Result CreateReq) → Request → ℕ → InMemoryRepo → Option (Reply × InMemoryRepo)
serve decode q now r = dispatched decode q now r (route routes q.method q.path)
