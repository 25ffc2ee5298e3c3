-- ===== src/Stream/Tests.antt =====
-- m09-jetstream/solution-stream/stream.go: the theorems at concrete deliveries.
use go_learning.Common.{
  ℕ, [], ◌∷◌, Option, none, some, true, false, Bytes, bytes_eq, string_comparable, if◌then◌else◌,
  ◌≡◌, ◌≢◌, refl, inl, arith,
}
use go_learning.Common.Int.{pos, ltb_ℤ, of_word}
use go_learning.Common.GoMap.{lookup}
use go_learning.GoErrors.{str, text}
use go_learning.Stream.{
  CustomerEvent, Answers, Msg, initial, ack, nak, mark, was_seen, past_limit, consume, deliver_from,
}
use go_learning.Stream.Once.{IsConsistent, consume-IsConsistent}
use go_learning.Stream.Buried.{IsBuried, deliver_buries}
use go_learning.Stream.Replay.{replay_silent}
use go_learning.Stream.Settled.{deliver_settles, deliver_sends}

-- The payload "x" is garbage; any other is the id of an event.
abbrev unmarshal : Bytes → Option CustomerEvent
unmarshal b =
    if bytes_eq b (str "x")
    then none
    else some (record { id = b; email = []; name = []; occurred_at = 0 })

abbrev ada : CustomerEvent
ada = record { id = str "e1"; email = []; name = []; occurred_at = 0 }

abbrev fails : Answers
fails = record { send = some (text (str "smtp down")); dlq_stored = false }

abbrev works : Answers
works = record { send = none; dlq_stored = true }

abbrev first : Msg
first = record { payload = str "e1"; delivered = some 1 }

abbrev fifth : Msg
fifth = record { payload = str "e1"; delivered = some 5 }

consume-IsConsistent_example :
    IsConsistent
      (consume unmarshal (pos 5) ((fails, first) ∷ (works, first) ∷ (works, first) ∷ []) initial)
consume-IsConsistent_example =
    consume-IsConsistent unmarshal (pos 5) ((fails, first) ∷ (works, first) ∷ (works, first) ∷ [])

initial-IsConsistent : IsConsistent initial
unfolding was_seen lookup
initial-IsConsistent = record { marked = λ id. refl; once = tt }

abbrev all_fail : ℕ → Answers
all_fail n = fails

deliver_buries_example :
    IsBuried fails
      (str "e1")
      initial
      (deliver_from unmarshal (pos 5) all_fail (str "e1") 5 1 initial)
unfolding was_seen lookup
deliver_buries_example =
    deliver_buries unmarshal 5 all_fail (str "e1") (omega arith) initial ada (omega arith) refl refl
      (λ k from upto. (text (str "smtp down"), refl))

-- The third send succeeds.
abbrev third_works : ℕ → Answers
third_works n = if ltb_ℤ (pos n) (pos 3) then fails else works

deliver_settles_example :
    (deliver_from unmarshal (pos 5) third_works (str "e1") 5 1 initial).1 ≢ nak
deliver_settles_example =
    deliver_settles unmarshal 5 third_works (str "e1") (omega arith) initial (omega arith)

deliver_sends_example :
    deliver_from unmarshal (pos 5) third_works (str "e1") 5 1 initial
    ≡ (record initial { dedup = mark initial.dedup (str "e1"); sent = ada ∷ [] }, ack)
unfolding was_seen lookup
deliver_sends_example =
    deliver_sends unmarshal 5 third_works (str "e1") (omega arith) initial ada 3 (omega arith)
      (omega arith) refl refl refl

first_within : past_limit (pos 5) first.delivered ≡ false
unfolding past_limit of_word
first_within = refl

replay_silent_example :
    consume unmarshal
      (pos 5)
      ((fails, first) ∷ (fails, first) ∷ [])
      (consume unmarshal (pos 5) ((works, first) ∷ []) initial)
    ≡ consume unmarshal (pos 5) ((works, first) ∷ []) initial
replay_silent_example =
    replay_silent unmarshal (pos 5) ((works, first) ∷ []) ((fails, first) ∷ (fails, first) ∷ [])
      initial
      (
        (first_within, inl (refl, refl, first_within)),
        ((first_within, inl (refl, refl, first_within)), tt),
      )
