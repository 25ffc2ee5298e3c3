-- ===== src/Capstone/Api.antt =====
-- m14-capstone/api/handler.go. The JSON decoder, the clock and the random bytes are outside: a
-- request carries the readings that its handling takes. The lock is held for the one statement that
-- stores the customer.
pub mod Laws
pub mod Routes
use go_learning.Common.{
  ℕ, ◌+◌, ◌/◌, ◌%◌, List, [], ◌∷◌, ◌++◌, Option, none, some, Bool, not, ◌||◌, Bytes,
  string_comparable, ltb, if◌then◌else◌,
}
use go_learning.Common.GoMap.{insert}
use go_learning.GoErrors.{str, Err}
use go_learning.GoHttp.{status_ok, status_created, status_bad_request}
use go_learning.GoStrings.{contains_byte, is_blank, hex}
use go_learning.Stream.{CustomerEvent, Published, Marshaled}
use go_learning.Capstone.Domain.{Customer}
use go_learning.Capstone.Events.{publish_customer_created}

pub record CreateReq : Type 0 where
  pub email : Bytes
  pub name : Bytes

-- What the handler reads: the body, six bytes of `rand.Read`, and the clock.
pub record Request : Type 0 where
  pub body : Bytes
  pub random : List ℕ
  pub now : ℕ

-- `decode` is `json.Decoder.Decode`, `none` its error; `marshal` is `json.Marshal`.
pub record Env : Type 0 where
  pub decode : Bytes → Option CreateReq
  pub marshal : CustomerEvent → Marshaled

-- The values that are encoded into a body.
pub data Payload : Type 0 where
  health_body : Payload
  error_body : (code msg : Bytes) → Payload
  customer_body : Customer → Payload

pub record Response : Type 0 where
  pub content_type : Bytes
  pub status : ℕ
  pub body : Payload

-- The handler's map, and what the publisher stored in the stream.
pub record World : Type 0 where
  pub by_id : List (Bytes × Customer)
  pub stream : List Published

unfoldable pub new_handler : World
new_handler = record { by_id = []; stream = [] }

unfoldable pub write_json : ℕ → Payload → Response
write_json status v = record { content_type = str "application/json"; status = status; body = v }

-- `"cus_" + randHex()`
unfoldable pub new_customer_id : Request → Bytes
new_customer_id r = str "cus_" ++ hex r.random

abbrev pub new_customer : Request → CreateReq → Customer
new_customer r req = record {
  id = new_customer_id r;
  email = req.email;
  name = req.name;
  created_at = r.now;
}

abbrev pub event_of : Customer → CustomerEvent
event_of c = record { id = c.id; email = c.email; name = c.name; occurred_at = c.created_at }

-- `answer`: the error of `js.Publish`. The handler drops the error of the publisher.
unfoldable pub store_and_publish : Env → Option Err → Customer → World → World × Response
store_and_publish env answer c w = (
  record {
    by_id = insert c.id c w.by_id;
    stream = w.stream ++ (publish_customer_created env.marshal answer (event_of c)).1;
  },
  write_json status_created (customer_body c),
)

-- The test after the body is decoded.
unfoldable pub is_refused : CreateReq → Bool
is_refused req = not (contains_byte b'@' req.email) || is_blank req.name

abbrev pub create_decoded : Env → Request → Option Err → World → Option CreateReq → World × Response
create_decoded env r answer w none =
    (w, write_json status_bad_request (error_body (str "VALIDATION") (str "invalid JSON")))
create_decoded env r answer w (some req) =
    if is_refused req
    then (
      w,
      write_json status_bad_request (error_body (str "VALIDATION") (str "email and name required")),
    )
    else store_and_publish env answer (new_customer r req) w

unfoldable pub create : Env → Request → Option Err → World → World × Response
create env r answer w = create_decoded env r answer w (env.decode r.body)

unfoldable pub healthz : World → World × Response
healthz w = (w, write_json status_ok health_body)
