-- ===== src/Stream.antt =====
-- m09-jetstream/solution-stream/stream.go: the deduplicating, dead-lettering consumer.
-- JetStream and `encoding/json` are outside: `unmarshal` is the decoder, and a delivery carries what
-- its surroundings answer while it is handled (`Answers`). The library calls the handler for one
-- message after another, so a delivery is one step.
pub mod Once
pub mod Explained
pub mod Replay
pub mod Settled
pub mod Buried
pub mod Connecting
mod Tests
use go_learning.Common.{
  ℕ, zero, suc, List, [], ◌∷◌, ◌++◌, Option, none, some, Bool, true, false, Bytes,
  string_comparable, if◌then◌else◌,
}
use go_learning.Common.Int.{ℤ, ltb_ℤ, of_word}
use go_learning.Common.GoMap.{lookup, insert, found}
use go_learning.GoErrors.{str, Err, wrapped}

-- m09-jetstream/solution-events/events.go
pub record CustomerEvent : Type 0 where
  pub id : Bytes
  pub email : Bytes
  pub name : Bytes
  pub occurred_at : ℕ

abbrev pub subject_customer_created : Bytes
subject_customer_created = str "cxm.customer.created"

abbrev pub subject_dlq : Bytes
subject_dlq = str "cxm.customer.dlq"

pub record DedupStore : Type 0 where
  pub seen : List (Bytes × Unit {0})

unfoldable pub new_dedup_store : DedupStore
new_dedup_store = record { seen = [] }

unfoldable pub was_seen : DedupStore → Bytes → Bool
was_seen d id = found (lookup id d.seen)

unfoldable pub mark : DedupStore → Bytes → DedupStore
mark d id = record { seen = insert id tt d.seen }

-- What went out through JetStream: a subject, the bytes, and the id for deduplication if one is set.
pub record Published : Type 0 where
  pub subject : Bytes
  pub bytes : Bytes
  pub msg_id : Option Bytes

-- `Publish`: `marshal` is `json.Marshal`, `answer` the error of `js.Publish`.
abbrev publish_bytes : CustomerEvent → Option Err → Bytes → Option Err × List Published
publish_bytes e (some fails) bytes = (some fails, [])
publish_bytes e none bytes =
    (none, record { subject = subject_customer_created; bytes = bytes; msg_id = some e.id } ∷ [])

pub data Marshaled : Type 0 where
  bytes : Bytes → Marshaled
  failed : Err → Marshaled

abbrev publish_marshaled : CustomerEvent → Option Err → Marshaled → Option Err × List Published
publish_marshaled e answer (failed err) = (some (wrapped (str "marshal: ") err), [])
publish_marshaled e answer (bytes b) = publish_bytes e answer b

unfoldable pub publish :
    (CustomerEvent → Marshaled) → CustomerEvent → Option Err → Option Err × List Published
publish marshal e answer = publish_marshaled e answer (marshal e)

-- A message as it is delivered; `delivered` is `NumDelivered` of its metadata, an uint64, or `none`
-- when `Metadata` gave nil.
pub record Msg : Type 0 where
  pub payload : Bytes
  pub delivered : Option ℕ

-- What the surroundings answer during one delivery: the error of `send`, if it is called, and
-- whether a publish to the dead-letter subject is stored.
pub record Answers : Type 0 where
  pub send : Option Err
  pub dlq_stored : Bool

-- The last call on the message.
pub data Verdict : Type 0 where
  ack nak term : Verdict

-- The consumer's store, the events whose `send` returned nil, and the payloads that reached the
-- dead-letter subject, the latest last.
pub record State : Type 0 where
  pub dedup : DedupStore
  pub sent : List CustomerEvent
  pub dead : List Bytes

abbrev pub initial : State
initial = record { dedup = record { seen = [] }; sent = []; dead = [] }

-- `_, _ = c.js.Publish(ctx, events.SubjectDLQ, msg.Data())`: a failure is ignored.
unfoldable pub dead_letter : Answers → Msg → State → State
dead_letter a msg s = if a.dlq_stored then record s { dead = s.dead ++ msg.payload ∷ [] } else s

-- `md != nil && int(md.NumDelivered) > c.maxDeliver`, and the same with `>=`.
unfoldable pub past_limit : ℤ → Option ℕ → Bool
past_limit max_deliver none = false
past_limit max_deliver (some n) = ltb_ℤ max_deliver (of_word n)

unfoldable pub at_limit : ℤ → Option ℕ → Bool
at_limit max_deliver none = false
at_limit max_deliver (some n) = if ltb_ℤ (of_word n) max_deliver then false else true

unfoldable pub after_send : ℤ → Answers → Msg → CustomerEvent → State → Option Err → State × Verdict
after_send max_deliver a msg e s (some err) =
    if at_limit max_deliver msg.delivered then (dead_letter a msg s, term) else (s, nak)
after_send max_deliver a msg e s none =
    (record s { dedup = mark s.dedup e.id; sent = s.sent ++ e ∷ [] }, ack)

unfoldable pub handle_event : ℤ → Answers → Msg → State → Option CustomerEvent → State × Verdict
unfolding after_send
handle_event max_deliver a msg s none = (s, term)
handle_event max_deliver a msg s (some e) =
    if past_limit max_deliver msg.delivered
    then (dead_letter a msg s, term)
    else if was_seen s.dedup e.id
    then (s, ack)
    else after_send max_deliver a msg e s a.send

unfoldable pub handle : (Bytes → Option CustomerEvent) → ℤ → Answers → Msg → State → State × Verdict
unfolding handle_event
handle unmarshal max_deliver a msg s = handle_event max_deliver a msg s (unmarshal msg.payload)

-- The deliveries of a consumer's life, one after the other.
unfoldable pub consume : (Bytes → Option CustomerEvent) → ℤ → List (Answers × Msg) → State → State
consume unmarshal max_deliver [] s = s
consume unmarshal max_deliver ((a, msg) ∷ ds) s =
    consume unmarshal max_deliver ds (handle unmarshal max_deliver a msg s).0

-- A negative acknowledgement brings the message back; `rest` is what follows then.
abbrev pub again : Verdict → State × Verdict → State × Verdict → State × Verdict
again nak out rest = rest
again ack out rest = out
again term out rest = out

-- The life of one message: from its delivery number `n` on, as long as it is negatively
-- acknowledged. `answers` gives what each delivery meets; fuel counts the deliveries left.
unfoldable pub deliver_from :
    (Bytes → Option CustomerEvent) → ℤ → (ℕ → Answers) → Bytes → ℕ → ℕ → State → State × Verdict
deliver_from unmarshal max_deliver answers payload zero n s = (s, nak)
deliver_from unmarshal max_deliver answers payload (suc fuel) n s =
    let msg : Msg = record { payload = payload; delivered = some n } in
    let out = handle unmarshal max_deliver (answers n) msg s in
    let rest = deliver_from unmarshal max_deliver answers payload fuel (suc n) out.0 in
    again out.1 out rest
