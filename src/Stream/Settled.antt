-- ===== src/Stream/Settled.antt =====
-- The deliveries of a message come to an end.
use go_learning.Common.{
  ℕ, zero, suc, ◌+◌, ◌≤◌, ◌<◌, [], ◌∷◌, ◌++◌, Option, none, some, true, false, Bytes,
  string_comparable, ◌≡◌, ◌≢◌, ◌⊎◌, refl, sym, ap, subst, ◌-◌, ◌∙◌, arith, inl, inr, Bool-cases,
  Option-cases,
}
use native.Mathlib.Decide.{dec_lt}
use go_learning.Common.Int.{ℤ, pos, of_word, max_int64}
use go_learning.GoErrors.{Err}
use go_learning.Stream.{
  CustomerEvent, was_seen, mark, Msg, Answers, Verdict, ack, nak, term, State, past_limit, at_limit,
  after_send, handle_event, handle, again, deliver_from,
}

of_word-pos : (n : ℕ) → n ≤ max_int64 → of_word n ≡ pos n
unfolding of_word
of_word-pos n h = ground arith

pub within_limit : (n max : ℕ) → n ≤ max → max ≤ max_int64 → past_limit (pos max) (some n) ≡ false
unfolding past_limit
within_limit n max h k = rw (of_word-pos n (omega arith)) (ground arith)

below_limit : (n max : ℕ) → n < max → max ≤ max_int64 → at_limit (pos max) (some n) ≡ false
unfolding at_limit
below_limit n max h k = rw (of_word-pos n (omega arith)) (ground arith)

pub at_limit_self : (max : ℕ) → max ≤ max_int64 → at_limit (pos max) (some max) ≡ true
unfolding at_limit
at_limit_self max k = rw (of_word-pos max k) (ground arith)

last_not_nak :
    (max_deliver : ℤ) (a : Answers) (msg : Msg) (e : CustomerEvent) (s : State)
    (answer : Option Err)
    → at_limit max_deliver msg.delivered ≡ true
    → (after_send max_deliver a msg e s answer).1 ≢ nak
unfolding after_send
last_not_nak max_deliver a msg e s (some err) last = rw last (λ p. cc)
last_not_nak max_deliver a msg e s none last = λ p. cc

event_last_not_nak :
    (max_deliver : ℤ) (a : Answers) (msg : Msg) (s : State) (o : Option CustomerEvent)
    → at_limit max_deliver msg.delivered ≡ true
    → (handle_event max_deliver a msg s o).1 ≢ nak
unfolding handle_event
event_last_not_nak max_deliver a msg s none last = λ p. cc
event_last_not_nak max_deliver a msg s (some e) last =
    elim (Bool-cases (past_limit max_deliver msg.delivered)) [
      | inl past ↦ rw past (λ p. cc)
      | inr within ↦ elim (Bool-cases (was_seen s.dedup e.id)) [
        | inl old ↦ rw (within, old) (λ p. cc)
        | inr new ↦ rw (within, new) (last_not_nak max_deliver a msg e s a.send last)
      ]
    ]

again-ne-nak :
    (v : Verdict) (out rest : State × Verdict)
    → out.1 ≡ v
    → rest.1 ≢ nak ⊎ (v ≢ nak)
    → (again v out rest).1 ≢ nak
again-ne-nak nak out rest e (inl r) = r
again-ne-nak nak out rest e (inr r) = absurd (r refl)
again-ne-nak ack out rest e r = λ p. cc
again-ne-nak term out rest e r = λ p. cc

module _ (unmarshal : Bytes → Option CustomerEvent) (max : ℕ) (answers : ℕ → Answers)
    (payload : Bytes) (bound : max ≤ max_int64) where
  settles_from :
      (fuel n : ℕ) (s : State)
      → n + fuel ≡ max
      → (deliver_from unmarshal (pos max) answers payload (suc fuel) n s).1 ≢ nak
  unfolding deliver_from handle
  settles_from zero n s e =
      let msg : Msg = record { payload = payload; delivered = some n } in
      let same : n ≡ max = omega arith in
      again-ne-nak _ (handle unmarshal (pos max) (answers n) msg s) _ refl (
        inr (
          event_last_not_nak (pos max) (answers n) msg s (unmarshal payload)
            (ap (λ k. at_limit (pos max) (some k)) same ∙ at_limit_self max bound)))
  settles_from (suc fuel) n s e =
      let msg : Msg = record { payload = payload; delivered = some n } in
      again-ne-nak _ (handle unmarshal (pos max) (answers n) msg s) _ refl (
        inl (
          settles_from fuel (suc n) (handle unmarshal (pos max) (answers n) msg s).0 (omega arith)))

  -- A message that is redelivered as long as it is negatively acknowledged is acknowledged or
  -- terminated after at most `max` deliveries, whatever the sends answer, for a limit `max` from 1 on
  -- that fits a 64-bit `int`.
  pub deliver_settles :
      (s : State) → 1 ≤ max → (deliver_from unmarshal (pos max) answers payload max 1 s).1 ≢ nak
  deliver_settles s h =
      let e : max ≡ suc (max - 1) = omega arith in
      subst (λ k. (deliver_from unmarshal (pos max) answers payload k 1 s).1 ≢ nak) (sym e)
        (settles_from (max - 1) 1 s (omega arith))

  -- One delivery below the limit whose send fails.
  pub comes_back :
      (n : ℕ) (s : State) (e : CustomerEvent) (err : Err)
      → n < max
      → unmarshal payload ≡ some e
      → was_seen s.dedup e.id ≡ false
      → (answers n).send ≡ some err
      → handle unmarshal (pos max) (answers n) (record { payload = payload; delivered = some n }) s
        ≡ (s, nak)
  unfolding handle handle_event after_send
  comes_back n s e err lt is_event new fails = rw is_event (
      rw (within_limit n max (omega arith) bound, new) (rw fails (rw (below_limit n max lt bound))))

  goes_out :
      (n : ℕ) (s : State) (e : CustomerEvent)
      → n ≤ max
      → unmarshal payload ≡ some e
      → was_seen s.dedup e.id ≡ false
      → (answers n).send ≡ none
      → handle unmarshal (pos max) (answers n) (record { payload = payload; delivered = some n }) s
        ≡ (record s { dedup = mark s.dedup e.id; sent = s.sent ++ e ∷ [] }, ack)
  unfolding handle handle_event after_send
  goes_out n s e le is_event new sends =
      rw is_event (rw (within_limit n max le bound, new) (rw sends))

  sends_from :
      (fuel n : ℕ) (s : State) (e : CustomerEvent) (k : ℕ)
      → n + fuel ≡ max
      → n ≤ k
      → k ≤ max
      → unmarshal payload ≡ some e
      → was_seen s.dedup e.id ≡ false
      → (answers k).send ≡ none
      → deliver_from unmarshal (pos max) answers payload (suc fuel) n s
        ≡ (record s { dedup = mark s.dedup e.id; sent = s.sent ++ e ∷ [] }, ack)
  unfolding deliver_from
  sends_from zero n s e k total le le_max is_event new sends =
      let same : k ≡ n = omega arith in
      rw (goes_out n s e (omega arith) is_event new (ap (λ j. (answers j).send) (sym same) ∙ sends))
  sends_from (suc fuel) n s e k total le le_max is_event new sends =
      elim (Option-cases (answers n).send) [
        | inl now ↦ rw (goes_out n s e (omega arith) is_event new now)
        | inr (err, fails) ↦ elim (dec_lt n k) [
          | yes lt ↦
              rw (comes_back n s e err (omega arith) is_event new fails)
                (sends_from fuel (suc n) s e k (omega arith) lt le_max is_event new sends)
          | no ge ↦
              let same : k ≡ n = omega arith in
              absurd (clash (sym fails ∙ ap (λ j. (answers j).send) (sym same) ∙ sends))
        ]
      ]
    where
      clash : {err : Err} → some err ≡ none → ⊥
      clash p = cc

  -- If the send would succeed on some delivery up to the limit, which fits a 64-bit `int`, the event
  -- of a message that was not seen before is sent, once, marked, and the message is acknowledged.
  pub deliver_sends :
      (s : State) (e : CustomerEvent) (k : ℕ)
      → 1 ≤ k
      → k ≤ max
      → unmarshal payload ≡ some e
      → was_seen s.dedup e.id ≡ false
      → (answers k).send ≡ none
      → deliver_from unmarshal (pos max) answers payload max 1 s
        ≡ (record s { dedup = mark s.dedup e.id; sent = s.sent ++ e ∷ [] }, ack)
  deliver_sends s e k h l is_event new sends =
      let eq : max ≡ suc (max - 1) = omega arith in
      subst
        (λ j.
          deliver_from unmarshal (pos max) answers payload j 1 s
          ≡ (record s { dedup = mark s.dedup e.id; sent = s.sent ++ e ∷ [] }, ack))
        (sym eq) (sends_from (max - 1) 1 s e k (omega arith) h l is_event new sends)
