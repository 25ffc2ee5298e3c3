-- ===== src/ProfileRpc/Events.antt =====
-- The stream of `ListEvents`.
use go_learning.Common.{
  ℕ, zero, suc, ◌+◌, ◌<◌, List, [], ◌∷◌, map, Option, none, some, length, take, ◌≡◌, ◌⊎◌, refl, sym,
  ap, subst, ◌∙◌, inl, inr, arith, Option-cases,
}
use go_learning.GoErrors.{Err}
use go_learning.ProfileRpc.Repo.{Event}
use go_learning.ProfileRpc.Server.{ProtoEvent, to_proto_event, send_events, streamed}

-- No event from number `n` on meets an error, for `m` of them.
abbrev pub Flows : (ℕ → Option Err) → (ℕ → Option Err) → ℕ → ℕ → Type 0
Flows context send n zero = Unit
Flows context send n (suc m) = (context n ≡ none) × (send n ≡ none) × Flows context send (suc n) m

-- What stops the stream before the event with number `k`.
abbrev pub Stops : (ℕ → Option Err) → (ℕ → Option Err) → ℕ → Err → Type 0
Stops context send k e = (context k ≡ some e) ⊎ ((context k ≡ none) × (send k ≡ some e))

-- How the loop can end, from event number `n` on.
abbrev pub StreamEnds :
    (ℕ → Option Err) → (ℕ → Option Err) → ℕ → List Event → Option Err × List ProtoEvent → Type 0
StreamEnds context send n es out =
    (Flows context send n (length es) × (out ≡ (none, map to_proto_event es)))
    ⊎ ((k : ℕ) × (e : Err) × (k < length es)
        × Flows context send n k
        × Stops context send (n + k) e
        × (out ≡ (some e, map to_proto_event (take k es))))

module _ (context send : ℕ → Option Err) where
  -- One more event sent before what follows.
  longer :
      (n : ℕ) (v : Event) (es : List Event) (out : Option Err × List ProtoEvent)
      → context n ≡ none
      → send n ≡ none
      → StreamEnds context send (suc n) es out
      → StreamEnds context send n (v ∷ es) (out.0, to_proto_event v ∷ out.1)
  longer n v es out on sent (inl (flows, e)) =
      inl ((on, sent, flows), ap (λ o. (o.0, to_proto_event v ∷ o.1)) e)
  longer n v es out on sent (inr (k, x, lt, flows, stops, e)) =
      let eq : suc n + k ≡ n + suc k = omega arith in
      inr (
        suc k,
        x,
        omega arith,
        (on, sent, flows),
        at eq stops,
        ap (λ o. (o.0, to_proto_event v ∷ o.1)) e,
      )
    where
      at : {a b : ℕ} → a ≡ b → Stops context send a x → Stops context send b x
      at p stops = subst (λ j. Stops context send j x) p stops

  here : (n : ℕ) → n + 0 ≡ n
  here n = omega arith

  abbrev Step : ℕ → Event → List Event → Option Err → Option Err → Type 0
  Step n v es c o =
      StreamEnds context send n (v ∷ es)
        (streamed c o (to_proto_event v) (send_events context send (suc n) es))

  -- The stream sends the events in order up to the first one before which the context is done or at
  -- which `Send` fails, and returns that error; with none of these it sends all and returns nil.
  pub send_events-StreamEnds :
      (n : ℕ) (es : List Event) → StreamEnds context send n es (send_events context send n es)
  unfolding send_events
  send_events-StreamEnds n [] = inl (tt, refl)
  send_events-StreamEnds n (v ∷ es) = elim (Option-cases (context n)) [
    | inr (e, done) ↦
        subst (λ c. Step n v es c (send n)) (sym done)
          (inr (0, e, omega arith, tt, inl (ap context (here n) ∙ done), refl))
    | inl on ↦ elim (Option-cases (send n)) [
      | inr (e, fails) ↦
          subst (λ c. Step n v es c (send n)) (sym on)
            (subst (λ o. Step n v es none o) (sym fails)
              (inr (
                0,
                e,
                omega arith,
                tt,
                inr (ap context (here n) ∙ on, ap send (here n) ∙ fails),
                refl,
              )))
      | inl sent ↦
          subst (λ c. Step n v es c (send n)) (sym on)
            (subst (λ o. Step n v es none o) (sym sent)
              (longer n v es (send_events context send (suc n) es) on sent
                (send_events-StreamEnds (suc n) es)))
    ]
  ]
