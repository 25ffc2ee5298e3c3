-- ===== src/Capstone/Welcomes.antt =====
-- m14-capstone as a whole: a list of requests, the stream that they leave, and a consumer that is
-- given messages of that stream, as cmd/pulse wires them.
pub mod Announced
pub mod Consumed
pub mod Once
use mathlib.Core.List.{append-nil}
use go_learning.Common.{
  List, [], ◌∷◌, ◌++◌, Option, none, some, Bool, true, false, All, All-append, Bytes, bytes_eq_refl,
  ◌||◌, string_comparable, ◌==◌, ◌≡◌, ◌⊎◌, refl, sym, ap, ◌∙◌, subst, arith, inl, inr, Bool-cases,
  if◌then◌else◌,
}
use go_learning.Common.Int.{ℤ}
use go_learning.Common.GoMap.{lookup, found}
use go_learning.GoErrors.{Err}
use go_learning.Stream.{
  CustomerEvent, Published, Marshaled, bytes, failed, Answers, Msg, State, initial, was_seen, mark,
  dead_letter, at_limit, after_send,
}
use go_learning.Stream.Once.{IsConsistent, DistinctIds, was_sent, was_seen-mark}
use go_learning.Stream.Replay.{IsKnown}
use go_learning.Capstone.Domain.{Customer}
use go_learning.Capstone.Events.{
  publish_customer_created, marshaled, handle_decoded, handle_msg, consume_all,
}
use go_learning.Capstone.Events.Laws.{consume_all-IsConsistent}
use go_learning.Capstone.Api.{
  Request, Env, World, Response, new_handler, event_of, new_customer, create,
}
use go_learning.Capstone.Api.Laws.{Refused, Created, create_answers}

-- The requests one after the other, each with the error of the broker's publish.
unfoldable pub create_all : Env → List (Request × Option Err) → World → World
create_all env [] w = w
create_all env ((r, answer) ∷ rs) w = create_all env rs (create env r answer w).0

-- A message of the stream has this payload.
abbrev pub IsStored : List Published → Bytes → Type 0
IsStored [] payload = ⊥
IsStored (m ∷ ms) payload = (payload ≡ m.bytes) ⊎ IsStored ms payload

-- A delivery of the payload finds the sender working.
abbrev pub IsServed : List (Answers × Msg) → Bytes → Type 0
IsServed [] payload = ⊥
IsServed ((a, msg) ∷ ds) payload = ((payload ≡ msg.payload) × (a.send ≡ none)) ⊎ IsServed ds payload

abbrev pub HasCustomer : World → CustomerEvent → Type 0
HasCustomer w e = found (lookup e.id w.by_id) ≡ true
