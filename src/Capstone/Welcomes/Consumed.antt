-- ===== src/Capstone/Welcomes/Consumed.antt =====
-- What a consumer of the stream sends and marks.
use go_learning.Common.{
  List, [], ◌∷◌, Option, none, some, true, All, All-append, Bytes, bytes_eq_refl, ◌||◌,
  string_comparable, ◌≡◌, refl, sym, ap, ◌∙◌, subst, arith, inl, inr, Bool-cases,
}
use go_learning.Common.Int.{ℤ}
use go_learning.GoErrors.{Err}
use go_learning.Stream.{
  CustomerEvent, Published, Answers, Msg, State, was_seen, dead_letter, at_limit, after_send,
}
use go_learning.Stream.Once.{was_seen-mark}
use go_learning.Capstone.Events.{handle_decoded, handle_msg, consume_all}
use go_learning.Capstone.Events.Laws.{handle_decoded-lem}
use go_learning.Capstone.Welcomes.{IsStored, IsServed}

module _ (unmarshal : Bytes → Option CustomerEvent) (stream : List Published) where
  -- The event was decoded from a payload of the stream.
  unfoldable pub Decoded : CustomerEvent → Type 0
  Decoded e = (payload : Bytes) × IsStored stream payload × (unmarshal payload ≡ some e)

module _ (unmarshal : Bytes → Option CustomerEvent) (max_deliver : ℤ)
    (stream : List Published) where
  after_send-Decoded :
      (a : Answers) (msg : Msg) (e : CustomerEvent) (s : State) (answer : Option Err)
      → Decoded unmarshal stream e
      → All (Decoded unmarshal stream) s.sent
      → All (Decoded unmarshal stream) (after_send max_deliver a msg e s answer).0.sent
  unfolding after_send dead_letter
  after_send-Decoded a msg e s none this h =
      All-append (Decoded unmarshal stream) s.sent (e ∷ []) h (this, tt)
  after_send-Decoded a msg e s (some err) this h =
      elim (Bool-cases (at_limit max_deliver msg.delivered)) [
        | inl last ↦ elim (Bool-cases a.dlq_stored) [
          | inl stored ↦ rw (last, stored) h
          | inr lost ↦ rw (last, lost) h
        ]
        | inr more ↦ rw more h
      ]

  handle_decoded-Decoded :
      (a : Answers) (msg : Msg) (s : State) (o : Option CustomerEvent)
      → unmarshal msg.payload ≡ o
      → IsStored stream msg.payload
      → All (Decoded unmarshal stream) s.sent
      → All (Decoded unmarshal stream) (handle_decoded max_deliver a msg s o).0.sent
  unfolding handle_decoded Decoded
  handle_decoded-Decoded a msg s none same stored h = h
  handle_decoded-Decoded a msg s (some e) same stored h =
      rw (handle_decoded-lem max_deliver a msg s e) (elim (Bool-cases (was_seen s.dedup e.id)) [
        | inl old ↦ rw old h
        | inr new ↦ rw new (after_send-Decoded a msg e s a.send (msg.payload, stored, same) h)
      ])

  pub consume_all-Decoded :
      (ds : List (Answers × Msg)) (s : State)
      → All (λ d. IsStored stream d.1.payload) ds
      → All (Decoded unmarshal stream) s.sent
      → All (Decoded unmarshal stream) (consume_all unmarshal max_deliver ds s).sent
  unfolding consume_all handle_msg
  consume_all-Decoded [] s from h = h
  consume_all-Decoded ((a, msg) ∷ ds) s (stored, from) h =
      consume_all-Decoded ds (handle_msg unmarshal max_deliver a msg s).0 from
        (handle_decoded-Decoded a msg s (unmarshal msg.payload) refl stored h)

module _ (unmarshal : Bytes → Option CustomerEvent) (max_deliver : ℤ) where
  after_send-keeps :
      (a : Answers) (msg : Msg) (e : CustomerEvent) (s : State) (answer : Option Err) (id : Bytes)
      → was_seen s.dedup id ≡ true
      → was_seen (after_send max_deliver a msg e s answer).0.dedup id ≡ true
  unfolding after_send dead_letter
  after_send-keeps a msg e s none id h = was_seen-mark s.dedup e.id id ∙ ground arith
  after_send-keeps a msg e s (some err) id h =
      elim (Bool-cases (at_limit max_deliver msg.delivered)) [
        | inl last ↦ elim (Bool-cases a.dlq_stored) [
          | inl stored ↦ rw (last, stored) h
          | inr lost ↦ rw (last, lost) h
        ]
        | inr more ↦ rw more h
      ]

  handle_decoded-keeps :
      (a : Answers) (msg : Msg) (s : State) (o : Option CustomerEvent) (id : Bytes)
      → was_seen s.dedup id ≡ true
      → was_seen (handle_decoded max_deliver a msg s o).0.dedup id ≡ true
  unfolding handle_decoded
  handle_decoded-keeps a msg s none id h = h
  handle_decoded-keeps a msg s (some e) id h =
      rw (handle_decoded-lem max_deliver a msg s e) (elim (Bool-cases (was_seen s.dedup e.id)) [
        | inl old ↦ rw old h
        | inr new ↦ rw new (after_send-keeps a msg e s a.send id h)
      ])

  handle_decoded-marks :
      (a : Answers) (msg : Msg) (s : State) (e : CustomerEvent)
      → a.send ≡ none
      → was_seen (handle_decoded max_deliver a msg s (some e)).0.dedup e.id ≡ true
  unfolding handle_decoded after_send
  handle_decoded-marks a msg s e works =
      rw (handle_decoded-lem max_deliver a msg s e) (elim (Bool-cases (was_seen s.dedup e.id)) [
        | inl old ↦ rw old old
        | inr new ↦ rw new (
            rw works (
              was_seen-mark s.dedup e.id e.id
              ∙ ap (λ b. b || was_seen s.dedup e.id) (bytes_eq_refl e.id)))
      ])

  consume_all-keeps :
      (ds : List (Answers × Msg)) (s : State) (id : Bytes)
      → was_seen s.dedup id ≡ true
      → was_seen (consume_all unmarshal max_deliver ds s).dedup id ≡ true
  unfolding consume_all handle_msg
  consume_all-keeps [] s id h = h
  consume_all-keeps ((a, msg) ∷ ds) s id h =
      consume_all-keeps ds (handle_msg unmarshal max_deliver a msg s).0 id
        (handle_decoded-keeps a msg s (unmarshal msg.payload) id h)

  pub consume_all-marks :
      (ds : List (Answers × Msg)) (s : State) (payload : Bytes) (e : CustomerEvent)
      → IsServed ds payload
      → unmarshal payload ≡ some e
      → was_seen (consume_all unmarshal max_deliver ds s).dedup e.id ≡ true
  unfolding consume_all handle_msg
  consume_all-marks [] s payload e served is_e = absurd served
  consume_all-marks ((a, msg) ∷ ds) s payload e (inl (same, works)) is_e =
      consume_all-keeps ds (handle_msg unmarshal max_deliver a msg s).0 e.id (
        subst (λ o. was_seen (handle_decoded max_deliver a msg s o).0.dedup e.id ≡ true)
          (sym (ap unmarshal (sym same) ∙ is_e)) (handle_decoded-marks a msg s e works))
  consume_all-marks ((a, msg) ∷ ds) s payload e (inr served) is_e =
      consume_all-marks ds (handle_msg unmarshal max_deliver a msg s).0 payload e served is_e
