-- ===== src/ProfileRpc/Server.antt =====
-- m05-grpc/solution-profile/profile.go: `Server`, over any `Repo`. `quote` is the verb %q. The
-- getters of the generated messages read a field.
use go_learning.Common.{
  ℕ, suc, ◌/◌, List, [], ◌∷◌, ◌++◌, Option, none, some, Bytes, bytes_eq, if◌then◌else◌,
}
use go_learning.GoErrors.{str, Err, is, profile_not_found, rpc, Result, ok, err}
use go_learning.GoRpc.{invalid_argument, not_found, internal}
use go_learning.ProfileRpc.Repo.{Profile, Event, Repo}

-- The generated messages.
pub record ProtoProfile : Type 0 where
  pub customer_id : Bytes
  pub traits : List (Bytes × Bytes)
  pub updated_at_unix : ℕ

pub record ProtoEvent : Type 0 where
  pub id : Bytes
  pub customer_id : Bytes
  pub kind : Bytes
  pub occurred_at_unix : ℕ

pub record UpsertRequest : Type 0 where
  pub customer_id : Bytes
  pub traits : List (Bytes × Bytes)

abbrev pub second : ℕ
second = 1000000000

-- `toProto`; `Unix()` drops the part of a second.
abbrev pub to_proto : Profile → ProtoProfile
to_proto p = record {
  customer_id = p.customer_id;
  traits = p.traits;
  updated_at_unix = p.updated_at / second;
}

abbrev pub to_proto_event : Event → ProtoEvent
to_proto_event e = record {
  id = e.id;
  customer_id = e.customer_id;
  kind = e.kind;
  occurred_at_unix = e.occurred_at / second;
}

abbrev pub id_required : Err
id_required = rpc invalid_argument (str "customer_id is required")

abbrev pub internal_error : Err
internal_error = rpc internal (str "internal error")

-- `profile %q not found`
abbrev pub absent : (Bytes → Bytes) → Bytes → Err
absent quote id = rpc not_found (str "profile " ++ (quote id ++ str " not found"))

module _ {S : Type 0} (repo : Repo S) (quote : Bytes → Bytes) where
  abbrev pub got : Bytes → Result Profile → Result ProtoProfile
  got id (ok p) = ok (to_proto p)
  got id (err e) = if is profile_not_found e then err (absent quote id) else err internal_error

  unfoldable pub get_profile : S → Bytes → Result ProtoProfile
  get_profile s id = if bytes_eq id [] then err id_required else got id (repo.get s id)

-- What the stream meets at each event: the error of its context when it is done, and the error of
-- `Send`. The loop returns its error and what was sent.
abbrev pub streamed :
    Option Err
    → Option Err
    → ProtoEvent
    → Option Err × List ProtoEvent
    → Option Err × List ProtoEvent
streamed (some ended) sent e rest = (some ended, [])
streamed none (some fails) e rest = (some fails, [])
streamed none none e rest = (rest.0, e ∷ rest.1)

unfoldable pub send_events :
    (ℕ → Option Err) → (ℕ → Option Err) → ℕ → List Event → Option Err × List ProtoEvent
send_events context send n [] = (none, [])
send_events context send n (e ∷ es) =
    let rest = send_events context send (suc n) es in
    streamed (context n) (send n) (to_proto_event e) rest

module _ {S : Type 0} (repo : Repo S) where
  abbrev pub saved : Result Profile × S → Result ProtoProfile × S
  saved (ok p, s) = (ok (to_proto p), s)
  saved (err e, s) = (err internal_error, s)

  -- `now` is the reading of the clock.
  unfoldable pub upsert_profile : S → UpsertRequest → ℕ → Result ProtoProfile × S
  upsert_profile s req now =
      if bytes_eq req.customer_id []
      then (err id_required, s)
      else saved (
          repo.upsert s
            (record { customer_id = req.customer_id; traits = req.traits; updated_at = now }))

  abbrev pub listed :
      (ℕ → Option Err) → (ℕ → Option Err) → Result (List Event) → Option Err × List ProtoEvent
  listed context send (ok es) = send_events context send 0 es
  listed context send (err e) = (some internal_error, [])

  unfoldable pub list_events :
      (ℕ → Option Err) → (ℕ → Option Err) → S → Bytes → Option Err × List ProtoEvent
  list_events context send s id =
      if bytes_eq id [] then (some id_required, []) else listed context send (repo.events s id)
