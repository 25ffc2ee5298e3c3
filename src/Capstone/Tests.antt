-- ===== src/Capstone/Tests.antt =====
-- m14-capstone: the theorems at a concrete request and its message.
use go_learning.Common.{
  ◌∙◌, inl, inr, length, take, drop, All, ap, subst, ℕ, List, [], ◌∷◌, ◌++◌, Option, none, some,
  true, Bytes, bytes_eq, string_comparable, ◌≡◌, refl, arith, if◌then◌else◌,
}
use go_learning.Common.Int.{pos}
use go_learning.Common.GoMap.{lookup}
use go_learning.GoErrors.{str, text}
use go_learning.GoHttp.{status_created}
use go_learning.GoStrings.{contains_byte, is_blank, hex}
use go_learning.Stream.{
  CustomerEvent, Marshaled, bytes, failed, Answers, Msg, initial, ack, was_seen, mark, deliver_from,
}
use go_learning.Capstone.Events.{redeliver, consume_all, publish_customer_created}
use go_learning.Capstone.Events.Laws.{redeliver-deliver_from}
use go_learning.Capstone.Api.{
  Request, Env, CreateReq, new_handler, write_json, customer_body, new_customer_id, new_customer,
  event_of, store_and_publish, is_refused, create,
}
use go_learning.Stream.Once.{DistinctIds, was_sent}
use go_learning.Capstone.Welcomes.{create_all, IsStored, HasCustomer}
use go_learning.Capstone.Welcomes.Once.{welcomes_once}
use go_learning.Capstone.Flow.{message_of, create-redeliver}

abbrev ada : CreateReq
ada = record { email = str "ada@pulse.dev"; name = str "Ada" }

abbrev post_ada : Request
post_ada = record { body = str "ada"; random = 1 ∷ 2 ∷ 3 ∷ 10 ∷ 11 ∷ 255 ∷ []; now = 7 }

abbrev sample_env : Env
sample_env = record {
  decode = λ b. if bytes_eq b (str "ada") then some ada else none;
  marshal = λ e. bytes e.id;
}

-- The decoder that fits the encoder of `sample_env`.
abbrev unmarshal : Bytes → Option CustomerEvent
unmarshal b =
    some (record { id = b; email = str "ada@pulse.dev"; name = str "Ada"; occurred_at = 7 })

id_of_ada : new_customer_id post_ada ≡ str "cus_0102030a0bff"
unfolding new_customer_id hex
id_of_ada = refl

abbrev fails : Answers
fails = record { send = some (text (str "smtp down")); dlq_stored = true }

abbrev works : Answers
works = record { send = none; dlq_stored = true }

abbrev second_works : ℕ → Answers
second_works n = elim n [ ℕ.zero ↦ fails | ℕ.suc m ↦ elim m [ ℕ.zero ↦ fails | ℕ.suc k ↦ works ] ]

create-redeliver_example :
    ((create sample_env post_ada none new_handler).1
      ≡ write_json status_created (customer_body (new_customer post_ada ada)))
    × ((create sample_env post_ada none new_handler).0.stream
        ≡ new_handler.stream
          ++ message_of (event_of (new_customer post_ada ada)) (new_customer_id post_ada) ∷ [])
    × (redeliver unmarshal (pos 5) second_works (new_customer_id post_ada) 5 1 initial ≡ (
      record initial {
        dedup = mark initial.dedup (new_customer_id post_ada);
        sent = initial.sent ++ event_of (new_customer post_ada ada) ∷ [];
      },
      ack,
    ))
unfolding is_refused contains_byte is_blank was_seen lookup
create-redeliver_example =
    create-redeliver sample_env unmarshal post_ada new_handler ada (new_customer_id post_ada) refl
      refl refl 5 second_works initial 2 (omega arith) (omega arith) (omega arith) refl refl refl

abbrev first : Msg
first = record { payload = str "e1"; delivered = some 1 }

abbrev two_events : List CustomerEvent
two_events = event_of (new_customer post_ada ada) ∷ event_of (new_customer post_ada ada) ∷ []

redeliver-deliver_from_example :
    redeliver unmarshal (pos 5) second_works (new_customer_id post_ada) 5 1 initial
    ≡ deliver_from unmarshal (pos 5) second_works (new_customer_id post_ada) 5 1 initial
redeliver-deliver_from_example =
    redeliver-deliver_from unmarshal 5 second_works (new_customer_id post_ada) (omega arith) 5 1
      initial (omega arith)

-- A codec that keeps every field: two lengths and the time in front of the three texts.
abbrev encode : CustomerEvent → Bytes
encode e = length e.id ∷ length e.email ∷ e.occurred_at ∷ (e.id ++ (e.email ++ e.name))

abbrev decode_event : Bytes → Option CustomerEvent
decode_event [] = none
decode_event (n ∷ []) = none
decode_event (n ∷ m ∷ []) = none
decode_event (n ∷ m ∷ t ∷ rest) = some (record {
  id = take n rest;
  email = take m (drop n rest);
  name = drop m (drop n rest);
  occurred_at = t;
})

take-append : (xs ys : Bytes) → take (length xs) (xs ++ ys) ≡ xs
take-append [] ys = refl
take-append (x ∷ xs) ys = ap (λ l. x ∷ l) (take-append xs ys)

drop-append : (xs ys : Bytes) → drop (length xs) (xs ++ ys) ≡ ys
drop-append [] ys = refl
drop-append (x ∷ xs) ys = drop-append xs ys

decode_event-encode : (e : CustomerEvent) → decode_event (encode e) ≡ some e
decode_event-encode e =
    let rest = e.id ++ (e.email ++ e.name) in
    let after = drop-append e.id (e.email ++ e.name) in
    let id = take-append e.id (e.email ++ e.name) in
    let email = ap (take (length e.email)) after ∙ take-append e.email e.name in
    let name = ap (drop (length e.email)) after ∙ drop-append e.email e.name in
    λ i. some (record { id = id i; email = email i; name = name i; occurred_at = e.occurred_at })

payload_or_nil : Marshaled → Bytes
payload_or_nil (bytes b) = b
payload_or_nil (failed err) = []

abbrev whole_env : Env
whole_env = record { decode = sample_env.decode; marshal = λ e. bytes (encode e) }

whole_codec :
    (f : CustomerEvent) (d : Bytes) → whole_env.marshal f ≡ bytes d → decode_event d ≡ some f
unfolding payload_or_nil
whole_codec f d h =
    subst (λ b. decode_event b ≡ some f) (ap payload_or_nil h) (decode_event-encode f)

abbrev ada_event : CustomerEvent
ada_event = event_of (new_customer post_ada ada)

abbrev ada_msg : Msg
ada_msg = record { payload = encode ada_event; delivered = some 1 }

abbrev deliveries : List (Answers × Msg)
deliveries = (fails, ada_msg) ∷ (works, ada_msg) ∷ (works, ada_msg) ∷ []

from_stream :
    All
      (λ d. IsStored (create_all whole_env ((post_ada, none) ∷ []) new_handler).stream d.1.payload)
      deliveries
unfolding create_all create store_and_publish publish_customer_created is_refused new_handler
    contains_byte is_blank
from_stream = (inl refl, (inl refl, (inl refl, tt)))

welcomes_once_example :
    let sent = (consume_all decode_event (pos 5) deliveries initial).sent in
    DistinctIds sent
    × All (HasCustomer (create_all whole_env ((post_ada, none) ∷ []) new_handler)) sent
    × (was_sent ada_event.id sent ≡ true)
welcomes_once_example =
    welcomes_once whole_env decode_event whole_codec (pos 5) ((post_ada, none) ∷ []) deliveries
      ada_event (encode ada_event) from_stream refl (inr (inl (refl, refl)))
