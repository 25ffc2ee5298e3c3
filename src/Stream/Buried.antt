-- ===== src/Stream/Buried.antt =====
-- What becomes of a message whose sends all fail.
use go_learning.Common.{
  ℕ, zero, suc, ◌+◌, ◌≤◌, ◌-◌, [], ◌∷◌, ◌++◌, Option, some, true, false, Bytes, string_comparable,
  ◌≡◌, ◌⊎◌, refl, sym, subst, arith, inl, inr, Bool-cases,
}
use go_learning.Common.Int.{pos, max_int64}
use go_learning.GoErrors.{Err}
use go_learning.Stream.{
  CustomerEvent, was_seen, Msg, Answers, Verdict, term, State, dead_letter, after_send,
  handle_event, handle, deliver_from,
}
use go_learning.Stream.Settled.{within_limit, at_limit_self, comes_back}

-- The message is terminated: its payload has gone to the dead-letter subject, or, when that did not
-- store it, nowhere.
abbrev pub IsBuried : Answers → Bytes → State → State × Verdict → Type 0
IsBuried a payload s out =
    ((a.dlq_stored ≡ true) × (out ≡ (record s { dead = s.dead ++ payload ∷ [] }, term)))
    ⊎ ((a.dlq_stored ≡ false) × (out ≡ (s, term)))

dead_letter-IsBuried :
    (a : Answers) (msg : Msg) (s : State) → IsBuried a msg.payload s (dead_letter a msg s, term)
unfolding dead_letter
dead_letter-IsBuried a msg s = elim (Bool-cases a.dlq_stored) [
  | inl stored ↦ rw stored (inl (refl, refl))
  | inr lost ↦ rw lost (inr (refl, refl))
]

module _ (unmarshal : Bytes → Option CustomerEvent) (max : ℕ) (answers : ℕ → Answers)
    (payload : Bytes) (bound : max ≤ max_int64) where
  -- The last permitted delivery.
  last_delivery :
      (s : State) (e : CustomerEvent) (err : Err)
      → unmarshal payload ≡ some e
      → was_seen s.dedup e.id ≡ false
      → (answers max).send ≡ some err
      → let msg : Msg = record { payload = payload; delivered = some max } in
        handle unmarshal (pos max) (answers max) msg s ≡ (dead_letter (answers max) msg s, term)
  unfolding handle handle_event after_send
  last_delivery s e err is_event new fails =
      rw is_event (
        rw (within_limit max max (omega arith) bound, new)
          (rw fails (rw (at_limit_self max bound))))

  buries_from :
      (fuel n : ℕ) (s : State) (e : CustomerEvent)
      → n + fuel ≡ max
      → unmarshal payload ≡ some e
      → was_seen s.dedup e.id ≡ false
      → ((k : ℕ) → n ≤ k → k ≤ max → (err : Err) × ((answers k).send ≡ some err))
      → IsBuried
          (answers max)
          payload
          s
          (deliver_from unmarshal (pos max) answers payload (suc fuel) n s)
  unfolding deliver_from
  buries_from zero n s e total is_event new fail =
      let same : n ≡ max = omega arith in
      let (err, fails) = fail max (omega arith) (omega arith) in
      rw same (
        rw (last_delivery s e err is_event new fails) (
          dead_letter-IsBuried (answers max) (record { payload = payload; delivered = some max })
            s))
  buries_from (suc fuel) n s e total is_event new fail =
      let (err, fails) = fail n (omega arith) (omega arith) in
      rw (comes_back unmarshal max answers payload bound n s e err (omega arith) is_event new fails)
        (buries_from fuel (suc n) s e (omega arith) is_event new
          (λ k le le_max. fail k (omega arith) le_max))

  -- If the sends of all deliveries from the first to the last permitted one fail, for a limit from 1
  -- on that fits a 64-bit `int`, a message with an event not seen before is terminated in the end and
  -- its event is neither sent nor marked. Its payload has joined the dead letters once, if the
  -- broker stored the publish at the last delivery; and if it did not, everything is as before, so
  -- that the event is lost.
  pub deliver_buries :
      (s : State) (e : CustomerEvent)
      → 1 ≤ max
      → unmarshal payload ≡ some e
      → was_seen s.dedup e.id ≡ false
      → ((k : ℕ) → 1 ≤ k → k ≤ max → (err : Err) × ((answers k).send ≡ some err))
      → IsBuried (answers max) payload s (deliver_from unmarshal (pos max) answers payload max 1 s)
  deliver_buries s e h is_event new fail =
      let eq : max ≡ suc (max - 1) = omega arith in
      subst
        (λ j.
          IsBuried (answers max) payload s (deliver_from unmarshal (pos max) answers payload j 1 s))
        (sym eq) (buries_from (max - 1) 1 s e (omega arith) is_event new fail)
