-- ===== src/Stream/Explained.antt =====
-- How a delivery ends.
use go_learning.Common.{
  Option, none, some, true, ◌||◌, Bytes, bytes_eq_refl, string_comparable, ◌≡◌, ◌≢◌, ◌⊎◌, refl, sym,
  ap, ◌∙◌, inl, inr, Bool-cases,
}
use go_learning.Common.Int.{ℤ}
use go_learning.GoErrors.{Err}
use go_learning.Stream.{
  CustomerEvent, was_seen, Msg, Answers, Verdict, ack, nak, term, State, dead_letter, past_limit,
  at_limit, after_send, handle_event, handle,
}
use go_learning.Stream.Once.{was_sent, was_sent-append, IsConsistent}

-- How a delivery can end.
abbrev pub IsExplained : Answers → Msg → Option CustomerEvent → State → State × Verdict → Type 0
IsExplained a msg o s out =
    ((out.1 ≡ ack) × ((e : CustomerEvent) × (o ≡ some e) × (was_sent e.id out.0.sent ≡ true)))
    ⊎ ((out.1 ≡ nak) × (out.0 ≡ s) × (a.send ≢ none))
    ⊎ ((out.1 ≡ term) × (((o ≡ none) × (out.0 ≡ s)) ⊎ (out.0 ≡ dead_letter a msg s)))

after_send-IsExplained :
    (max_deliver : ℤ) (a : Answers) (msg : Msg) (e : CustomerEvent) (s : State)
    (answer : Option Err)
    → a.send ≡ answer
    → IsExplained a msg (some e) s (after_send max_deliver a msg e s answer)
unfolding after_send
after_send-IsExplained max_deliver a msg e s (some err) same =
    elim (Bool-cases (at_limit max_deliver msg.delivered)) [
      | inl last ↦ rw last (inr (inr (refl, inr refl)))
      | inr more ↦ rw more (inr (inl (refl, refl, λ ok. clash (sym same ∙ ok))))
    ]
  where
    clash : some err ≡ none → ⊥
    clash p = cc
after_send-IsExplained max_deliver a msg e s none same = inl (
  refl,
  (
    e,
    refl,
    was_sent-append e.id s.sent e ∙ ap (λ b. b || was_sent e.id s.sent) (bytes_eq_refl e.id),
  ),
)

-- From a state whose store holds the ids of the sent events: a delivery that is acknowledged leaves
-- the event among the sent ones; one that is negatively acknowledged has had a failed send and
-- changes nothing; one that is terminated held no event, and changes nothing, or its payload went
-- to the dead-letter subject, as far as that stores it.
pub handle-IsExplained :
    (unmarshal : Bytes → Option CustomerEvent) (max_deliver : ℤ) (a : Answers) (msg : Msg)
    (s : State)
    → IsConsistent s
    → IsExplained a msg (unmarshal msg.payload) s (handle unmarshal max_deliver a msg s)
unfolding handle handle_event
handle-IsExplained unmarshal max_deliver a msg s v = go (unmarshal msg.payload)
  where
    go : (o : Option CustomerEvent) → IsExplained a msg o s (handle_event max_deliver a msg s o)
    go none = inr (inr (refl, inl (refl, refl)))
    go (some e) = elim (Bool-cases (past_limit max_deliver msg.delivered)) [
      | inl past ↦ rw past (inr (inr (refl, inr refl)))
      | inr within ↦ elim (Bool-cases (was_seen s.dedup e.id)) [
        | inl old ↦ rw (within, old) (inl (refl, (e, refl, sym (v.marked e.id) ∙ old)))
        | inr new ↦ rw (within, new) (after_send-IsExplained max_deliver a msg e s a.send refl)
      ]
    ]
