-- ===== src/ProfileRpc/Tests.antt =====
-- m05-grpc: the theorems over the repository in memory and at concrete calls.
use go_learning.Common.{
  ℕ, ◌*◌, List, [], ◌∷◌, Option, none, Bytes, string_comparable, ◌≡◌, ◌≢◌, refl, inl,
}
use go_learning.Common.GoMap.{insert}
use go_learning.GoErrors.{str, Err, ok, err}
use go_learning.GoRpc.{unauthenticated}
use go_learning.ProfileRpc.Repo.{Event, InMemoryRepo, in_memory, get_profile_of, put_profile}
use go_learning.ProfileRpc.Server.{ProtoProfile, UpsertRequest, second, get_profile, send_events}
use go_learning.ProfileRpc.Server
use go_learning.ProfileRpc.Client.{client_get}
use go_learning.ProfileRpc.Session.{
  ClientSees, in_memory-IsRepo, client_get-get_profile, upsert-get,
}
use go_learning.ProfileRpc.Events.{StreamEnds, send_events-StreamEnds}
use go_learning.ProfileRpc.Interceptor.{
  Call, World, returned, panicked, UnaryHandler, invalid_token, unary, chain,
}
use go_learning.ProfileRpc.Chain.{chain_denies}

abbrev plain : Bytes → Bytes
plain id = id

abbrev one : InMemoryRepo
one = record {
  profiles =
      (str "c1", record { customer_id = str "c1"; traits = []; updated_at = 2500000000 }) ∷ [];
  event_lists = [];
}

c1-ne-nil : str "c1" ≢ []
c1-ne-nil p = cc

client_get-get_profile_example :
    ClientSees
      (get_profile_of one (str "c1"))
      (client_get (get_profile in_memory plain one) (str "c1"))
unfolding in_memory
client_get-get_profile_example = client_get-get_profile in_memory plain one (str "c1") c1-ne-nil

abbrev upsert_c1 : UpsertRequest
upsert_c1 = record { customer_id = str "c1"; traits = (str "plan", str "pro") ∷ [] }

abbrev shown_c1 : ProtoProfile
shown_c1 = record {
  customer_id = str "c1";
  traits = (str "plan", str "pro") ∷ [];
  updated_at_unix = 3;
}

abbrev saved_c1 : InMemoryRepo
saved_c1 = record {
  profiles =
      (
        str "c1",
        record {
          customer_id = str "c1";
          traits = (str "plan", str "pro") ∷ [];
          updated_at = 3700000000;
        },
      )
      ∷ [];
  event_lists = [];
}

upsert-get_example :
    client_get (get_profile in_memory plain saved_c1) (str "c1")
    ≡ ok (record {
      customer_id = str "c1";
      traits = (str "plan", str "pro") ∷ [];
      updated_at = 3 * second;
    })
unfolding in_memory put_profile insert Server.upsert_profile
upsert-get_example =
    upsert-get in_memory plain in_memory-IsRepo one saved_c1 upsert_c1 3700000000 shown_c1 c1-ne-nil
      refl

abbrev quiet : ℕ → Option Err
quiet n = none

abbrev two_events : List Event
two_events =
    record { id = str "e1"; customer_id = str "c1"; kind = str "open"; occurred_at = 0 }
    ∷ record { id = str "e2"; customer_id = str "c1"; kind = str "click"; occurred_at = 0 }
    ∷ []

send_events-StreamEnds_example :
    StreamEnds quiet quiet 0 two_events (send_events quiet quiet 0 two_events)
send_events-StreamEnds_example = send_events-StreamEnds quiet quiet 0 two_events

-- A handler that panics.
abbrev broken : UnaryHandler ℕ ℕ
broken call w = panicked w

abbrev start : World ℕ
start = record { state = 0; log = [] }

abbrev with_token : Call
with_token = record { method = str "/GetProfile"; vals = str "Bearer t" ∷ [] }

abbrev no_token : Call
no_token = record { method = str "/GetProfile"; vals = [] }

chain_denies_example :
    chain (str "t") broken no_token start
    ≡ returned
        (err invalid_token)
        (record { state = 0; log = unary (str "/GetProfile") unauthenticated ∷ [] })
chain_denies_example = chain_denies (str "t") broken no_token start (inl refl)
