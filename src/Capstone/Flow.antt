-- ===== src/Capstone/Flow.antt =====
-- m14-capstone/cmd/pulse/main.go: the flow from a request to the welcome message.
use go_learning.Common.{ℕ, [], ◌∷◌, ◌++◌, Option, none, some, false, Bytes, ◌≡◌, ◌≤◌, ap, ◌∙◌}
use go_learning.Common.Int.{pos, max_int64}
use go_learning.GoHttp.{status_created}
use go_learning.Stream.{
  CustomerEvent, Published, Marshaled, bytes, subject_customer_created, Answers, State, ack,
  was_seen, mark,
}
use go_learning.Capstone.Events.{publish_customer_created, redeliver}
use go_learning.Capstone.Events.Laws.{redeliver_sends}
use go_learning.Capstone.Api.{
  Request, Env, CreateReq, World, write_json, customer_body, new_customer_id, new_customer,
  event_of, store_and_publish, is_refused, create,
}
use go_learning.Capstone.Api.Laws.{create_accepted}

-- The message of the stream for an event.
abbrev pub message_of : CustomerEvent → Bytes → Published
message_of e payload = record {
  subject = subject_customer_created;
  bytes = payload;
  msg_id = some e.id;
}

publish_stores :
    (marshal : CustomerEvent → Marshaled) (e : CustomerEvent) (payload : Bytes)
    → marshal e ≡ bytes payload
    → (publish_customer_created marshal none e).1 ≡ message_of e payload ∷ []
unfolding publish_customer_created
publish_stores marshal e payload h = rw h

module _ (env : Env) (unmarshal : Bytes → Option CustomerEvent) (r : Request) (w : World)
    (req : CreateReq) (payload : Bytes) (is_req : env.decode r.body ≡ some req)
    (good : is_refused req ≡ false)
    (encoded : env.marshal (event_of (new_customer r req)) ≡ bytes payload) where
  -- From a good request, with a broker that stores the event, to the welcome: the answer is 201
  -- with the customer, the stream gets one message, and if that decodes to what was encoded, its id
  -- was not seen before and some delivery up to the limit, which fits a 64-bit `int`, finds the
  -- sender working, then the event with the customer's id, address and name is sent, marked and
  -- acknowledged.
  pub create-redeliver :
      (max : ℕ) (answers : ℕ → Answers) (s : State) (k : ℕ)
      → max ≤ max_int64
      → 1 ≤ k
      → k ≤ max
      → unmarshal payload ≡ some (event_of (new_customer r req))
      → was_seen s.dedup (new_customer_id r) ≡ false
      → (answers k).send ≡ none
      → ((create env r none w).1 ≡ write_json status_created (customer_body (new_customer r req)))
        × ((create env r none w).0.stream
            ≡ w.stream ++ message_of (event_of (new_customer r req)) payload ∷ [])
        × (redeliver unmarshal (pos max) answers payload max 1 s ≡ (
          record s {
            dedup = mark s.dedup (new_customer_id r);
            sent = s.sent ++ event_of (new_customer r req) ∷ [];
          },
          ack,
        ))
  unfolding store_and_publish
  create-redeliver max answers s k bound h l decoded new works =
      let made = create_accepted env r none w req is_req good in
      (
        ap (λ out. out.1) made,
        ap (λ out. out.0.stream) made
            ∙ ap (λ ms. w.stream ++ ms)
                (publish_stores env.marshal (event_of (new_customer r req)) payload encoded),
        redeliver_sends unmarshal max answers payload bound s (event_of (new_customer r req)) k h l
            decoded new works,
      )
