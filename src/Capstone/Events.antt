-- ===== src/Capstone/Events.antt =====
-- m14-capstone/events/events.go: the publisher, the dedup store and the consumer's handler. What a
-- delivery works on (`State`), what it meets (`Answers`) and the last call on a message (`Verdict`) are
-- types of the module Stream.
pub mod Laws
pub mod Connecting
use go_learning.Common.{
  ℕ, zero, suc, List, [], ◌∷◌, ◌++◌, Bool, false, not, Option, none, some, Bytes, string_comparable,
  if◌then◌else◌,
}
use go_learning.Common.Int.{ℤ, ltb_ℤ, of_word}
use go_learning.Common.GoMap.{lookup, insert, found}
use go_learning.GoErrors.{str, Err, wrapped}
use go_learning.Stream.{
  CustomerEvent, Published, Marshaled, bytes, failed, subject_customer_created, Answers, Msg, State,
  Verdict, ack, nak, term, DedupStore, again,
}

abbrev published_bytes : CustomerEvent → Option Err → Bytes → Option Err × List Published
published_bytes e (some fails) payload = (some fails, [])
published_bytes e none payload =
    (none, record { subject = subject_customer_created; bytes = payload; msg_id = some e.id } ∷ [])

abbrev pub marshaled : CustomerEvent → Option Err → Marshaled → Option Err × List Published
marshaled e answer (failed err) = (some (wrapped (str "marshal: ") err), [])
marshaled e answer (bytes payload) = published_bytes e answer payload

-- `marshal` is `json.Marshal`, `answer` the error of `js.Publish`.
unfoldable pub publish_customer_created :
    (CustomerEvent → Marshaled) → Option Err → CustomerEvent → Option Err × List Published
publish_customer_created marshal answer e = marshaled e answer (marshal e)

unfoldable pub empty_store : DedupStore
empty_store = record { seen = [] }

-- `DedupStore.Seen`
unfoldable pub is_seen : DedupStore → Bytes → Bool
is_seen d id = found (lookup id d.seen)

-- `DedupStore.Mark`
unfoldable pub mark_seen : DedupStore → Bytes → DedupStore
mark_seen d id = record { seen = insert id tt d.seen }

-- `md != nil && int(md.NumDelivered) >= c.maxDeliver`
unfoldable pub is_last : ℤ → Option ℕ → Bool
is_last max_deliver none = false
is_last max_deliver (some n) = not (ltb_ℤ (of_word n) max_deliver)

-- `_, _ = c.js.Publish(ctx, domain.SubjectDLQ, msg.Data())`
unfoldable pub bury : Answers → Msg → State → State
bury a msg s = if a.dlq_stored then record s { dead = s.dead ++ msg.payload ∷ [] } else s

-- The handler from the call of `c.send` on, which answered with the last argument.
unfoldable pub send_answered :
    ℤ → Answers → Msg → CustomerEvent → State → Option Err → State × Verdict
send_answered max_deliver a msg e s (some err) =
    if is_last max_deliver msg.delivered then (bury a msg s, term) else (s, nak)
send_answered max_deliver a msg e s none =
    (record s { dedup = mark_seen s.dedup e.id; sent = s.sent ++ e ∷ [] }, ack)

-- `Consumer.handle` once the payload is decoded.
unfoldable pub handle_decoded : ℤ → Answers → Msg → State → Option CustomerEvent → State × Verdict
handle_decoded max_deliver a msg s none = (s, term)
handle_decoded max_deliver a msg s (some e) =
    if is_seen s.dedup e.id then (s, ack) else send_answered max_deliver a msg e s a.send

unfoldable pub handle_msg :
    (Bytes → Option CustomerEvent) → ℤ → Answers → Msg → State → State × Verdict
unfolding handle_decoded
handle_msg unmarshal max_deliver a msg s =
    handle_decoded max_deliver a msg s (unmarshal msg.payload)

unfoldable pub consume_all :
    (Bytes → Option CustomerEvent) → ℤ → List (Answers × Msg) → State → State
consume_all unmarshal max_deliver [] s = s
consume_all unmarshal max_deliver ((a, msg) ∷ ds) s =
    consume_all unmarshal max_deliver ds (handle_msg unmarshal max_deliver a msg s).0

-- The life of one message from its delivery number `n` on, as long as it is negatively
-- acknowledged; fuel counts the deliveries left.
unfoldable pub redeliver :
    (Bytes → Option CustomerEvent) → ℤ → (ℕ → Answers) → Bytes → ℕ → ℕ → State → State × Verdict
redeliver unmarshal max_deliver answers payload zero n s = (s, nak)
redeliver unmarshal max_deliver answers payload (suc fuel) n s =
    let msg : Msg = record { payload = payload; delivered = some n } in
    let out = handle_msg unmarshal max_deliver (answers n) msg s in
    let rest = redeliver unmarshal max_deliver answers payload fuel (suc n) out.0 in
    again out.1 out rest
