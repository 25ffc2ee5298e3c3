-- ===== src/VersionService.antt =====
-- m12-cicd/main.go: the service that the container image is built from. `version` is the variable
-- that the build sets.
use go_learning.Common.{ℕ, List, [], ◌∷◌, Option, none, some, Bytes}
use go_learning.GoErrors.{str, Err}
use go_learning.GoMux.{Pattern, literal, Routed, found_route, method_not_allowed, no_route, route}

-- One entry of the JSON object that is answered.
pub record Response : Type 0 where
  pub content_type : Bytes
  pub key : Bytes
  pub value : Bytes

unfoldable pub write_json : (key value : Bytes) → Response
write_json key value = record { content_type = str "application/json"; key = key; value = value }

pub data Endpoint : Type 0 where
  healthz_endpoint version_endpoint : Endpoint

unfoldable pub routes : List (Pattern × Endpoint)
routes =
    (record { method = str "GET"; path = literal (str "healthz") ∷ [] }, healthz_endpoint)
    ∷ (record { method = str "GET"; path = literal (str "version") ∷ [] }, version_endpoint)
    ∷ []

pub data Reply : Type 0 where
  answer : Response → Reply
  not_allowed_405 not_found_404 : Reply

abbrev pub dispatched : Bytes → Routed Endpoint → Reply
dispatched version (found_route healthz_endpoint value) =
    answer (write_json (str "status") (str "ok"))
dispatched version (found_route version_endpoint value) =
    answer (write_json (str "version") version)
dispatched version method_not_allowed = not_allowed_405
dispatched version no_route = not_found_404

unfoldable pub serve : (version method : Bytes) → (path : List Bytes) → Reply
serve version method path = dispatched version (route routes method path)

-- The exit code of `main`, once `ListenAndServe` returns.
unfoldable pub exit_code : Option Err → ℕ
exit_code none = 0
exit_code (some e) = 1
