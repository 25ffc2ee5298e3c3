-- ===== src/Stream/Once.antt =====
-- An event is sent at most once, and acknowledged only when it has been sent.
use go_learning.Common.{
  List, [], ◌∷◌, ◌++◌, Option, none, some, Bool, false, ◌||◌, Bytes, bytes_eq, bytes_eq_iff,
  string_comparable, ◌≡◌, refl, sym, ap, ◌∙◌, arith, inl, inr, Bool-cases, any,
}
use go_learning.Common.Int.{ℤ}
use go_learning.Common.GoMap.{lookup, lookup-insert}
use go_learning.GoErrors.{Err}
use go_learning.Stream.{
  CustomerEvent, DedupStore, was_seen, mark, Msg, Answers, State, initial, dead_letter, past_limit,
  at_limit, after_send, handle_event, handle, consume,
}

-- An event with this id is among the sent ones.
abbrev pub was_sent : Bytes → List CustomerEvent → Bool
was_sent id es = any (λ e. bytes_eq e.id id) es

abbrev pub DistinctIds : List CustomerEvent → Type 0
DistinctIds [] = Unit
DistinctIds (e ∷ es) = (was_sent e.id es ≡ false) × DistinctIds es

-- The store holds the ids of the sent events, and these are sent once each.
pub record IsConsistent (s : State) : Type 0 where
  pub marked : (id : Bytes) → was_seen s.dedup id ≡ was_sent id s.sent
  pub once : DistinctIds s.sent

pub was_seen-mark :
    (d : DedupStore) (id j : Bytes) → was_seen (mark d id) j ≡ (bytes_eq id j || was_seen d j)
unfolding was_seen mark
was_seen-mark d id j = elim (Bool-cases (bytes_eq id j)) [
  | inl same ↦ rw (lookup-insert id j tt d.seen) (rw same)
  | inr other ↦ rw (lookup-insert id j tt d.seen) (rw other)
]

pub was_sent-append :
    (id : Bytes) (es : List CustomerEvent) (e : CustomerEvent)
    → was_sent id (es ++ e ∷ []) ≡ (bytes_eq e.id id || was_sent id es)
was_sent-append id [] e = refl
was_sent-append id (d ∷ es) e = ground (arith, was_sent-append id es e)

DistinctIds-append :
    (es : List CustomerEvent) (e : CustomerEvent)
    → DistinctIds es
    → was_sent e.id es ≡ false
    → DistinctIds (es ++ e ∷ [])
DistinctIds-append [] e h f = (refl, tt)
DistinctIds-append (d ∷ es) e h f = ground (
  arith,
  was_sent-append d.id es e,
  DistinctIds-append es e,
  bytes_eq_iff d.id e.id,
  bytes_eq_iff e.id d.id,
)

dead_letter-IsConsistent :
    (a : Answers) (msg : Msg) (s : State) → IsConsistent s → IsConsistent (dead_letter a msg s)
unfolding dead_letter
dead_letter-IsConsistent a msg s v = elim (Bool-cases a.dlq_stored) [
  | inl stored ↦ rw stored (record { marked = v.marked; once = v.once })
  | inr lost ↦ rw lost v
]

pub after_send-IsConsistent :
    (max_deliver : ℤ) (a : Answers) (msg : Msg) (e : CustomerEvent) (s : State)
    (answer : Option Err)
    → IsConsistent s
    → was_seen s.dedup e.id ≡ false
    → IsConsistent (after_send max_deliver a msg e s answer).0
unfolding after_send
after_send-IsConsistent max_deliver a msg e s (some err) v new =
    elim (Bool-cases (at_limit max_deliver msg.delivered)) [
      | inl last ↦ rw last (dead_letter-IsConsistent a msg s v)
      | inr more ↦ rw more v
    ]
after_send-IsConsistent max_deliver a msg e s none v new = record {
  marked = λ id.
      was_seen-mark s.dedup e.id id
      ∙ ap (λ b. bytes_eq e.id id || b) (v.marked id)
      ∙ sym (was_sent-append id s.sent e);
  once = DistinctIds-append s.sent e v.once (sym (v.marked e.id) ∙ new);
}

handle_event-IsConsistent :
    (max_deliver : ℤ) (a : Answers) (msg : Msg) (s : State) (o : Option CustomerEvent)
    → IsConsistent s
    → IsConsistent (handle_event max_deliver a msg s o).0
unfolding handle_event
handle_event-IsConsistent max_deliver a msg s none v = v
handle_event-IsConsistent max_deliver a msg s (some e) v =
    elim (Bool-cases (past_limit max_deliver msg.delivered)) [
      | inl past ↦ rw past (dead_letter-IsConsistent a msg s v)
      | inr within ↦ elim (Bool-cases (was_seen s.dedup e.id)) [
        | inl old ↦ rw (within, old) v
        | inr new ↦ rw (within, new) (after_send-IsConsistent max_deliver a msg e s a.send v new)
      ]
    ]

consume-keeps :
    (unmarshal : Bytes → Option CustomerEvent) (max_deliver : ℤ) (ds : List (Answers × Msg))
    (s : State)
    → IsConsistent s
    → IsConsistent (consume unmarshal max_deliver ds s)
unfolding consume handle
consume-keeps unmarshal max_deliver [] s v = v
consume-keeps unmarshal max_deliver ((a, msg) ∷ ds) s v =
    consume-keeps unmarshal max_deliver ds (handle unmarshal max_deliver a msg s).0
      (handle_event-IsConsistent max_deliver a msg s (unmarshal msg.payload) v)

-- However messages are delivered, redelivered and answered, one at a time, no two successful sends
-- of a consumer are for one event id, and its store holds exactly the ids that were sent.
pub consume-IsConsistent :
    (unmarshal : Bytes → Option CustomerEvent) (max_deliver : ℤ) (ds : List (Answers × Msg))
    → IsConsistent (consume unmarshal max_deliver ds initial)
unfolding was_seen lookup
consume-IsConsistent unmarshal max_deliver ds =
    consume-keeps unmarshal max_deliver ds initial (record { marked = λ id. refl; once = tt })
