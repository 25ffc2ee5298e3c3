-- ===== src/Capstone/Welcomes/Once.antt =====
-- Each customer is welcomed once.
use go_learning.Common.{
  List, [], ◌∷◌, Option, none, some, true, All, Bytes, string_comparable, ◌≡◌, sym, ap, ◌∙◌, subst,
  inl, inr,
}
use go_learning.Common.Int.{ℤ}
use go_learning.GoErrors.{Err}
use go_learning.Stream.{CustomerEvent, Published, bytes, Answers, Msg, initial}
use go_learning.Stream.Once.{DistinctIds, was_sent}
use go_learning.Capstone.Events.{consume_all}
use go_learning.Capstone.Events.Laws.{consume_all-IsConsistent}
use go_learning.Capstone.Api.{Request, Env, World, new_handler}
use go_learning.Capstone.Welcomes.{create_all, IsStored, IsServed, HasCustomer}
use go_learning.Capstone.Welcomes.Announced.{Announces, create_all-Announces}
use go_learning.Capstone.Welcomes.Consumed.{Decoded, consume_all-Decoded, consume_all-marks}

event_or : CustomerEvent → Option CustomerEvent → CustomerEvent
event_or e none = e
event_or e (some f) = f

module _ (env : Env) (unmarshal : Bytes → Option CustomerEvent)
    (codec : (f : CustomerEvent) (d : Bytes) → env.marshal f ≡ bytes d → unmarshal d ≡ some f) where
  stored_customer :
      (w : World) (ms : List Published) (payload : Bytes) (e : CustomerEvent)
      → All (Announces env w) ms
      → IsStored ms payload
      → unmarshal payload ≡ some e
      → HasCustomer w e
  unfolding Announces event_or
  stored_customer w [] payload e h stored is_e = absurd stored
  stored_customer w (m ∷ ms) payload e ((f, encoded, has), hs) (inl same) is_e =
      let both : some f ≡ some e = sym (codec f m.bytes encoded) ∙ ap unmarshal (sym same) ∙ is_e in
      subst (HasCustomer w) (ap (event_or f) both) has
  stored_customer w (m ∷ ms) payload e (h, hs) (inr stored) is_e =
      stored_customer w ms payload e hs stored is_e

  sent_customers :
      (w : World) (ms : List Published) (es : List CustomerEvent)
      → All (Announces env w) ms
      → All (Decoded unmarshal ms) es
      → All (HasCustomer w) es
  unfolding Decoded
  sent_customers w ms [] h d = tt
  sent_customers w ms (e ∷ es) h ((payload, stored, is_e), d) =
      (stored_customer w ms payload e h stored is_e, sent_customers w ms es h d)

  -- After any list of requests, good and bad, and whatever the broker answered to the publishes: let a
  -- consumer be given messages of the stream, in any order and as often as the broker likes, with any
  -- answers of the sender. With a decoder that fits the encoder, no two successful sends are for one
  -- id; each is for the id of a customer that the handler has stored; and for the event of each
  -- payload whose delivery at some time found the sender working, an event of that id was sent.
  pub welcomes_once :
      (max_deliver : ℤ) (rs : List (Request × Option Err)) (ds : List (Answers × Msg))
      (e : CustomerEvent) (payload : Bytes)
      → All (λ d. IsStored (create_all env rs new_handler).stream d.1.payload) ds
      → env.marshal e ≡ bytes payload
      → IsServed ds payload
      → let sent = (consume_all unmarshal max_deliver ds initial).sent in
        DistinctIds sent
        × All (HasCustomer (create_all env rs new_handler)) sent
        × (was_sent e.id sent ≡ true)
  unfolding new_handler
  welcomes_once max_deliver rs ds e payload from encoded served =
      let w = create_all env rs new_handler in
      let consistent = consume_all-IsConsistent unmarshal max_deliver ds in
      (
        consistent.once,
        sent_customers w w.stream (consume_all unmarshal max_deliver ds initial).sent
            (create_all-Announces env rs new_handler tt)
            (consume_all-Decoded unmarshal max_deliver w.stream ds initial from tt),
        sym (consistent.marked e.id)
            ∙ consume_all-marks unmarshal max_deliver ds initial payload e served
                (codec e payload encoded),
      )
