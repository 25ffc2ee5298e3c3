-- ===== src/Capstone/Events/Laws.antt =====
-- The consumer of m14 against the one of m09, and what it keeps.
use go_learning.Common.{
  ℕ, zero, suc, ◌+◌, ◌≤◌, List, [], ◌∷◌, ◌++◌, Option, none, some, false, Bytes, ◌≡◌, refl, sym, ap,
  if◌then◌else◌, ◌∙◌, arith, inl, inr, Bool-cases, string_comparable,
}
use go_learning.Common.Int.{ℤ, pos, max_int64, ltb_ℤ, of_word}
use go_learning.GoErrors.{Err}
use go_learning.Common.GoMap.{lookup}
use go_learning.Stream.{
  CustomerEvent, Answers, Msg, State, initial, ack, nak, term, DedupStore, was_seen, mark, at_limit,
  dead_letter, after_send, past_limit, handle_event, handle, deliver_from,
}
use go_learning.Stream.Once.{IsConsistent, after_send-IsConsistent}
use go_learning.Stream.Settled.{within_limit, deliver_sends}
use go_learning.Capstone.Events.{
  is_seen, mark_seen, is_last, bury, send_answered, handle_decoded, handle_msg, consume_all,
  redeliver,
}

is_seen-was_seen : (d : DedupStore) (id : Bytes) → is_seen d id ≡ was_seen d id
unfolding is_seen was_seen
is_seen-was_seen d id = refl

is_last-at_limit :
    (max_deliver : ℤ) (delivered : Option ℕ)
    → is_last max_deliver delivered ≡ at_limit max_deliver delivered
unfolding is_last at_limit
is_last-at_limit max_deliver none = refl
is_last-at_limit max_deliver (some n) = elim (Bool-cases (ltb_ℤ (of_word n) max_deliver)) [
  | inl lt ↦ rw lt
  | inr ge ↦ rw ge
]

send_answered-after_send :
    (max_deliver : ℤ) (a : Answers) (msg : Msg) (e : CustomerEvent) (s : State)
    (answer : Option Err)
    → send_answered max_deliver a msg e s answer ≡ after_send max_deliver a msg e s answer
unfolding send_answered after_send bury dead_letter mark_seen mark
send_answered-after_send max_deliver a msg e s none = refl
send_answered-after_send max_deliver a msg e s (some err) =
    ap
      (λ b.
        if b
        then (if a.dlq_stored then record s { dead = s.dead ++ msg.payload ∷ [] } else s, term)
        else (s, nak))
      (is_last-at_limit max_deliver msg.delivered)

-- The handler of m14 in the words of m09's.
pub handle_decoded-lem :
    (max_deliver : ℤ) (a : Answers) (msg : Msg) (s : State) (e : CustomerEvent)
    → handle_decoded max_deliver a msg s (some e)
      ≡ (if was_seen s.dedup e.id then (s, ack) else after_send max_deliver a msg e s a.send)
unfolding handle_decoded
handle_decoded-lem max_deliver a msg s e =
    ap (λ b. if b then (s, ack) else send_answered max_deliver a msg e s a.send)
      (is_seen-was_seen s.dedup e.id)
    ∙ ap (λ out. if was_seen s.dedup e.id then (s, ack) else out)
        (send_answered-after_send max_deliver a msg e s a.send)

-- Up to the limit, and without metadata, one delivery.
handle_msg-handle :
    (unmarshal : Bytes → Option CustomerEvent) (max_deliver : ℤ) (a : Answers) (msg : Msg)
    (s : State)
    → past_limit max_deliver msg.delivered ≡ false
    → handle_msg unmarshal max_deliver a msg s ≡ handle unmarshal max_deliver a msg s
unfolding handle_msg handle handle_decoded handle_event
handle_msg-handle unmarshal max_deliver a msg s within = go (unmarshal msg.payload)
  where
    go :
        (o : Option CustomerEvent)
        → handle_decoded max_deliver a msg s o ≡ handle_event max_deliver a msg s o
    go none = refl
    go (some e) = handle_decoded-lem max_deliver a msg s e ∙ sym (rw within)

handle_decoded-IsConsistent :
    (max_deliver : ℤ) (a : Answers) (msg : Msg) (s : State) (o : Option CustomerEvent)
    → IsConsistent s
    → IsConsistent (handle_decoded max_deliver a msg s o).0
unfolding handle_decoded
handle_decoded-IsConsistent max_deliver a msg s none v = v
handle_decoded-IsConsistent max_deliver a msg s (some e) v =
    rw (handle_decoded-lem max_deliver a msg s e) (elim (Bool-cases (was_seen s.dedup e.id)) [
      | inl old ↦ rw old v
      | inr new ↦ rw new (after_send-IsConsistent max_deliver a msg e s a.send v new)
    ])

consume_all-keeps :
    (unmarshal : Bytes → Option CustomerEvent) (max_deliver : ℤ) (ds : List (Answers × Msg))
    (s : State)
    → IsConsistent s
    → IsConsistent (consume_all unmarshal max_deliver ds s)
unfolding consume_all handle_msg
consume_all-keeps unmarshal max_deliver [] s v = v
consume_all-keeps unmarshal max_deliver ((a, msg) ∷ ds) s v =
    consume_all-keeps unmarshal max_deliver ds (handle_msg unmarshal max_deliver a msg s).0
      (handle_decoded-IsConsistent max_deliver a msg s (unmarshal msg.payload) v)

-- However messages are delivered, redelivered and answered, one at a time, no two successful sends
-- of the capstone's consumer are for one event id, and its store holds exactly the ids sent.
pub consume_all-IsConsistent :
    (unmarshal : Bytes → Option CustomerEvent) (max_deliver : ℤ) (ds : List (Answers × Msg))
    → IsConsistent (consume_all unmarshal max_deliver ds initial)
unfolding was_seen lookup
consume_all-IsConsistent unmarshal max_deliver ds =
    consume_all-keeps unmarshal max_deliver ds initial (record { marked = λ id. refl; once = tt })

module _ (unmarshal : Bytes → Option CustomerEvent) (max : ℕ) (answers : ℕ → Answers)
    (payload : Bytes) (bound : max ≤ max_int64) where
  -- The lives of a message under the two consumers are the same: for any answers of the sender and of
  -- the broker, and a limit that fits a 64-bit `int`, what m14's handler makes of the deliveries that
  -- follow one another up to the limit, as long as they are negatively acknowledged, is what m09's
  -- makes of them, the last call on the message included. So m09's test for a delivery past the limit
  -- makes no difference to a message that the broker delivers no more often.
  pub redeliver-deliver_from :
      (fuel n : ℕ) (s : State)
      → n + fuel ≤ suc max
      → redeliver unmarshal (pos max) answers payload fuel n s
        ≡ deliver_from unmarshal (pos max) answers payload fuel n s
  unfolding redeliver deliver_from
  redeliver-deliver_from zero n s le = refl
  redeliver-deliver_from (suc fuel) n s le =
      let msg : Msg = record { payload = payload; delivered = some n } in
      rw
        (handle_msg-handle unmarshal (pos max) (answers n) msg s
          (within_limit n max (omega arith) bound))
        (rw (
          redeliver-deliver_from fuel (suc n) (handle unmarshal (pos max) (answers n) msg s).0
            (omega arith)))

  -- If the send would succeed on some delivery up to the limit, the event of a message that was not
  -- seen before is sent, once, marked, and the message is acknowledged.
  pub redeliver_sends :
      (s : State) (e : CustomerEvent) (k : ℕ)
      → 1 ≤ k
      → k ≤ max
      → unmarshal payload ≡ some e
      → was_seen s.dedup e.id ≡ false
      → (answers k).send ≡ none
      → redeliver unmarshal (pos max) answers payload max 1 s
        ≡ (record s { dedup = mark s.dedup e.id; sent = s.sent ++ e ∷ [] }, ack)
  redeliver_sends s e k h l is_event new sends =
      redeliver-deliver_from max 1 s (omega arith)
      ∙ deliver_sends unmarshal max answers payload bound s e k h l is_event new sends
