-- ===== src/Pulse/Handler.antt =====
-- m10-project-structure/pulse/internal/customer/customer.go: `Handler`. The JSON decoder is outside,
-- `decode`; the mux's choice of a route is too.
use go_learning.Common.{ℕ, [], Option, none, some, Bytes, nat_eq, if◌then◌else◌}
use go_learning.GoErrors.{str, Err, message, coded, Result, ok, err}
use go_learning.GoHttp.{status_ok, status_created, status_internal}
use go_learning.Errorx.{code_validation, code, http_status}
use go_learning.Pulse.Customer.{Customer, InMemoryRepo, create, get}

pub record CreateReq : Type 0 where
  pub email : Bytes
  pub name : Bytes

pub record Resp : Type 0 where
  pub id : Bytes
  pub email : Bytes
  pub name : Bytes

pub data Payload : Type 0 where
  health_body : Payload
  error_body : (code msg : Bytes) → Payload
  customer_body : Resp → Payload

pub record Response : Type 0 where
  pub content_type : Bytes
  pub status : ℕ
  pub body : Payload

unfoldable pub write_json : ℕ → Payload → Response
write_json status v = record { content_type = str "application/json"; status = status; body = v }

abbrev pub internal_message : Bytes
internal_message = str "internal server error"

unfoldable pub respond_err : Err → Response
respond_err e =
    let status = http_status (some e) in
    let msg = if nat_eq status status_internal then internal_message else message e in
    write_json status (error_body (code (some e)) msg)

abbrev pub resp_of : Customer → Resp
resp_of c = record { id = c.id; email = c.email; name = c.name }

abbrev pub new_customer : CreateReq → Customer
new_customer req = record { id = []; email = req.email; name = req.name; created_at = 0 }

abbrev pub created : Option (Result Customer × InMemoryRepo) → Option (Response × InMemoryRepo)
created none = none
created (some (err e, r)) = some (respond_err e, r)
created (some (ok c, r)) = some (write_json status_created (customer_body (resp_of c)), r)

abbrev pub create_decoded : ℕ → InMemoryRepo → Result CreateReq → Option (Response × InMemoryRepo)
create_decoded now r (err e) = some (respond_err (coded code_validation e), r)
create_decoded now r (ok req) = created (create now (new_customer req) r)

-- `none` is a panic of the service.
unfoldable pub handle_create :
    (Bytes → Result CreateReq) → Bytes → ℕ → InMemoryRepo → Option (Response × InMemoryRepo)
handle_create decode body now r = create_decoded now r (decode body)

abbrev pub answered : Result Customer → Response
answered (err e) = respond_err e
answered (ok c) = write_json status_ok (customer_body (resp_of c))

unfoldable pub handle_get : Bytes → InMemoryRepo → Response
handle_get id r = answered (get id r)

unfoldable pub healthz : Response
healthz = write_json status_ok health_body
