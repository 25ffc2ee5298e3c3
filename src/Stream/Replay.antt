-- ===== src/Stream/Replay.antt =====
-- A consumer that reads the history again, with the same store.
use go_learning.Common.{
  List, [], ◌∷◌, Option, none, some, true, false, All, Bytes, bytes_eq_refl, ◌||◌,
  string_comparable, ◌≡◌, ◌⊎◌, refl, sym, ap, ◌∙◌, subst, arith, inl, inr, Bool-cases,
}
use go_learning.Common.Int.{ℤ}
use go_learning.GoErrors.{Err}
use go_learning.Stream.{
  CustomerEvent, was_seen, Msg, Answers, State, dead_letter, past_limit, at_limit, after_send,
  handle_event, handle, consume,
}
use go_learning.Stream.Once.{was_seen-mark}

-- The id of the event, if there is one, is in the store.
abbrev pub IsKnown : State → Option CustomerEvent → Type 0
IsKnown s none = Unit
IsKnown s (some e) = was_seen s.dedup e.id ≡ true

module _ (unmarshal : Bytes → Option CustomerEvent) (max_deliver : ℤ) where
  -- Among the deliveries is one of this payload, within the limit, whose send succeeds if it is made.
  abbrev pub Served : List (Answers × Msg) → Bytes → Type 0
  Served [] payload = ⊥
  Served ((a, msg) ∷ ds) payload =
      ((payload ≡ msg.payload) × (a.send ≡ none) × (past_limit max_deliver msg.delivered ≡ false))
      ⊎ Served ds payload

  abbrev pub IsReplay : List (Answers × Msg) → Answers × Msg → Type 0
  IsReplay ds (a, msg) = (past_limit max_deliver msg.delivered ≡ false) × Served ds msg.payload

  after_send-IsKnown :
      (a : Answers) (msg : Msg) (e : CustomerEvent) (s : State) (answer : Option Err)
      (o : Option CustomerEvent)
      → IsKnown s o
      → IsKnown (after_send max_deliver a msg e s answer).0 o
  unfolding after_send dead_letter
  after_send-IsKnown a msg e s answer none h = tt
  after_send-IsKnown a msg e s none (some f) h = was_seen-mark s.dedup e.id f.id ∙ ground arith
  after_send-IsKnown a msg e s (some err) (some f) h =
      elim (Bool-cases (at_limit max_deliver msg.delivered)) [
        | inl last ↦ elim (Bool-cases a.dlq_stored) [
          | inl stored ↦ rw (last, stored) h
          | inr lost ↦ rw (last, lost) h
        ]
        | inr more ↦ rw more h
      ]

  handle_event-IsKnown :
      (a : Answers) (msg : Msg) (s : State) (this o : Option CustomerEvent)
      → IsKnown s o
      → IsKnown (handle_event max_deliver a msg s this).0 o
  unfolding handle_event dead_letter
  handle_event-IsKnown a msg s none o h = h
  handle_event-IsKnown a msg s (some e) none h = tt
  handle_event-IsKnown a msg s (some e) (some f) h =
      elim (Bool-cases (past_limit max_deliver msg.delivered)) [
        | inl past ↦ elim (Bool-cases a.dlq_stored) [
          | inl stored ↦ rw (past, stored) h
          | inr lost ↦ rw (past, lost) h
        ]
        | inr within ↦ elim (Bool-cases (was_seen s.dedup e.id)) [
          | inl old ↦ rw (within, old) h
          | inr new ↦ rw (within, new) (after_send-IsKnown a msg e s a.send (some f) h)
        ]
      ]

  -- A delivery within the limit whose send succeeds leaves its event in the store.
  served-IsKnown :
      (a : Answers) (msg : Msg) (s : State) (o : Option CustomerEvent)
      → a.send ≡ none
      → past_limit max_deliver msg.delivered ≡ false
      → IsKnown (handle_event max_deliver a msg s o).0 o
  unfolding handle_event after_send
  served-IsKnown a msg s none ok within = tt
  served-IsKnown a msg s (some e) ok within = elim (Bool-cases (was_seen s.dedup e.id)) [
    | inl old ↦ rw (within, old) old
    | inr new ↦
        rw (within, new)
          (rw ok (
            was_seen-mark s.dedup e.id e.id
            ∙ ap (λ b. b || was_seen s.dedup e.id) (bytes_eq_refl e.id)))
  ]

  -- What is in the store changes nothing when it comes again.
  known-handle_event :
      (a : Answers) (msg : Msg) (s : State) (o : Option CustomerEvent)
      → IsKnown s o
      → past_limit max_deliver msg.delivered ≡ false
      → (handle_event max_deliver a msg s o).0 ≡ s
  unfolding handle_event
  known-handle_event a msg s none known within = refl
  known-handle_event a msg s (some e) known within = rw (within, known)

  consume-IsKnown :
      (ds : List (Answers × Msg)) (s : State) (o : Option CustomerEvent)
      → IsKnown s o
      → IsKnown (consume unmarshal max_deliver ds s) o
  unfolding consume handle
  consume-IsKnown [] s o h = h
  consume-IsKnown ((a, msg) ∷ ds) s o h =
      consume-IsKnown ds (handle unmarshal max_deliver a msg s).0 o
        (handle_event-IsKnown a msg s (unmarshal msg.payload) o h)

  consumed-IsKnown :
      (ds : List (Answers × Msg)) (s : State) (payload : Bytes)
      → Served ds payload
      → IsKnown (consume unmarshal max_deliver ds s) (unmarshal payload)
  unfolding consume handle
  consumed-IsKnown [] s payload h = absurd h
  consumed-IsKnown ((a, msg) ∷ ds) s payload (inl (same, ok, within)) =
      let s' = (handle unmarshal max_deliver a msg s).0 in
      consume-IsKnown ds s' (unmarshal payload) (
        subst (λ p. IsKnown s' (unmarshal p)) (sym same)
          (served-IsKnown a msg s (unmarshal msg.payload) ok within))
  consumed-IsKnown ((a, msg) ∷ ds) s payload (inr h) =
      consumed-IsKnown ds (handle unmarshal max_deliver a msg s).0 payload h

  replay_from :
      (ds replayed : List (Answers × Msg)) (s : State)
      → ((payload : Bytes) → Served ds payload → IsKnown s (unmarshal payload))
      → All (IsReplay ds) replayed
      → consume unmarshal max_deliver replayed s ≡ s
  unfolding consume handle
  replay_from ds [] s known all = refl
  replay_from ds ((a, msg) ∷ more) s known ((within, served), all) =
      ap (consume unmarshal max_deliver more)
        (known-handle_event a msg s (unmarshal msg.payload) (known msg.payload served) within)
      ∙ replay_from ds more s known all

  -- When a consumer that shares the dedup store is given the history again, any part of it in any
  -- order and as often as it likes, it sends nothing and changes nothing: for deliveries within the
  -- limit, whose payloads were each delivered before, within the limit, with a send that succeeded.
  pub replay_silent :
      (ds replayed : List (Answers × Msg)) (s : State)
      → All (IsReplay ds) replayed
      → consume unmarshal max_deliver replayed (consume unmarshal max_deliver ds s)
        ≡ consume unmarshal max_deliver ds s
  replay_silent ds replayed s all =
      replay_from ds replayed (consume unmarshal max_deliver ds s)
        (λ payload served. consumed-IsKnown ds s payload served) all
