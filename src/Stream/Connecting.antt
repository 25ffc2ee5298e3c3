-- ===== src/Stream/Connecting.antt =====
-- m09-jetstream/solution-stream/stream.go and m14-capstone/events/events.go: `Connect`, `EnsureStream`
-- and `Start`, which the two packages share but for a text. The NATS client is a parameter,
-- `JetStream`. Times are in nanoseconds.
use go_learning.Common.{ℕ, ◌*◌, List, [], ◌∷◌, Bytes, refl}
use go_learning.Common.Int.{ℤ, negsuc}
use go_learning.GoErrors.{str, wrapped, Result, ok, err}
use go_learning.Handles.{close_handle, NoLeak, close-open}
use go_learning.Stream.{subject_customer_created}

abbrev pub stream_name : Bytes
stream_name = str "CXM_EVENTS"

abbrev pub subject_customer_all : Bytes
subject_customer_all = str "cxm.customer.>"

abbrev second : ℕ
second = 1000000000

pub record DialOptions : Type 0 where
  pub max_reconnects : ℤ
  pub reconnect_wait : ℕ

pub data Retention : Type 0 where
  limits_policy interest_policy work_queue_policy : Retention

pub data AckPolicy : Type 0 where
  ack_explicit_policy ack_none_policy ack_all_policy : AckPolicy

-- The fields that the program sets.
pub record StreamConfig : Type 0 where
  pub name : Bytes
  pub subjects : List Bytes
  pub retention : Retention
  pub max_age : ℕ

pub record ConsumerConfig : Type 0 where
  pub durable : Bytes
  pub ack_policy : AckPolicy
  pub max_deliver : ℤ
  pub ack_wait : ℕ
  pub filter_subject : Bytes

-- Connections, contexts, streams, consumers and their consumptions are numbers.
pub record JetStream : Type 0 where
  pub dial : Bytes → DialOptions → Result ℕ
  pub new_context : ℕ → Result ℕ
  pub create_or_update_stream : ℕ → StreamConfig → Result ℕ
  pub create_or_update_consumer : ℕ → ConsumerConfig → Result ℕ
  pub consume_from : ℕ → Result ℕ

abbrev with_context : ℕ → List ℕ → Result ℕ → Result (ℕ × ℕ) × List ℕ
with_context nc open_ones (ok js) = (ok (nc, js), open_ones)
with_context nc open_ones (err e) = (err (wrapped (str "jetstream: ") e), close_handle nc open_ones)

abbrev dialed : JetStream → Bytes → List ℕ → Result ℕ → Result (ℕ × ℕ) × List ℕ
dialed client prefix open_ones (err e) = (err (wrapped prefix e), open_ones)
dialed client prefix open_ones (ok nc) = with_context nc (nc ∷ open_ones) (client.new_context nc)

-- With the connections that are open, and the text for an error of the first call.
unfoldable pub connect_with : Bytes → JetStream → Bytes → List ℕ → Result (ℕ × ℕ) × List ℕ
connect_with prefix client url open_ones =
    dialed client prefix open_ones
      (client.dial url (record { max_reconnects = negsuc 0; reconnect_wait = second }))

unfoldable pub connect : JetStream → Bytes → List ℕ → Result (ℕ × ℕ) × List ℕ
connect = connect_with (str "nats connect: ")

unfoldable pub ensure_stream : JetStream → ℕ → Result ℕ
ensure_stream client js = client.create_or_update_stream js (record {
  name = stream_name;
  subjects = subject_customer_all ∷ [];
  retention = limits_policy;
  max_age = 24 * 3600 * second;
})

abbrev consumer_config : Bytes → ℤ → ConsumerConfig
consumer_config durable max_deliver = record {
  durable = durable;
  ack_policy = ack_explicit_policy;
  max_deliver = max_deliver;
  ack_wait = 5 * second;
  filter_subject = subject_customer_created;
}

abbrev consuming : Result ℕ → Result ℕ
consuming (ok stop) = ok stop
consuming (err e) = err (wrapped (str "consume: ") e)

abbrev created : JetStream → Result ℕ → Result ℕ
created client (ok cons) = consuming (client.consume_from cons)
created client (err e) = err (wrapped (str "consumer: ") e)

-- `Start`: it gives the consumption that `stop` ends.
unfoldable pub start : JetStream → ℤ → (stream : ℕ) → (durable : Bytes) → Result ℕ
start client max_deliver stream durable =
    created client (client.create_or_update_consumer stream (consumer_config durable max_deliver))

module _ (prefix : Bytes) (client : JetStream) (url : Bytes) (before : List ℕ) where
  with_context-NoLeak :
      (nc : ℕ) (r : Result ℕ) → NoLeak (λ p. p.0) before (with_context nc (nc ∷ before) r)
  with_context-NoLeak nc (ok js) = refl
  with_context-NoLeak nc (err e) = close-open nc before

  dialed-NoLeak : (r : Result ℕ) → NoLeak (λ p. p.0) before (dialed client prefix before r)
  dialed-NoLeak (err e) = refl
  dialed-NoLeak (ok nc) = with_context-NoLeak nc (client.new_context nc)

  -- `Connect` leaves its connection open when it returns it, and nothing when it fails.
  pub connect_with-NoLeak : NoLeak (λ p. p.0) before (connect_with prefix client url before)
  unfolding connect_with
  connect_with-NoLeak =
      dialed-NoLeak
        (client.dial url (record { max_reconnects = negsuc 0; reconnect_wait = second }))
