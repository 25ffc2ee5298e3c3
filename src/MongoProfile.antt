-- ===== src/MongoProfile.antt =====
-- m07-mongodb/solution-profile/profile.go: the profile repository over MongoDB. The client is a
-- parameter, `Mongo`: each call of the driver is one operation on the server's state `S`. A profile
-- and an event have the fields of those in m05-grpc; a time is its nanoseconds since 1970.
pub mod Stored
pub mod Connecting
mod Tests
use go_learning.Common.{
  ℕ, List, [], ◌∷◌, Option, none, some, Bytes, string_comparable, if◌then◌else◌,
}
use go_learning.Common.Int.{ℤ}
use go_learning.Common.GoMap.{insert}
use go_learning.GoErrors.{
  str, Err, wrapped, sentinel, profile_not_found, no_documents, is, Result, ok, err,
}
use go_learning.ProfileRpc.Repo.{Profile, Event}

-- `find` and `aggregate` give the error of the call, or else what `cur.All` gives.
pub record Mongo (S : Type 0) : Type 0 where
  pub create_index : S → Option Err × S
  pub update_one :
      (id : Bytes) (traits : List (Bytes × Bytes)) (updated_at : ℕ) → S → Option Err × S
  pub find_one : (id : Bytes) → S → Result Profile
  pub insert_one : Event → S → Option Err × S
  pub find : (customer_id : Bytes) → S → Result (Result (List Event))
  pub aggregate : (customer_id : Bytes) → S → Result (Result (List (Bytes × ℤ)))

module _ {S : Type 0} (db : Mongo S) where
  unfoldable pub new_mongo_repo : S → Option Err × S
  new_mongo_repo s = db.create_index s

  abbrev pub upserted : Profile → Option Err × S → Result Profile × S
  upserted p (none, s) = (ok p, s)
  upserted p (some e, s) = (err (wrapped (str "upsert profile: ") e), s)

  -- `now` is the reading of the clock.
  unfoldable pub upsert : ℕ → Profile → S → Result Profile × S
  upsert now p s =
      upserted (record p { updated_at = now }) (db.update_one p.customer_id p.traits now s)

  abbrev pub decoded : Result Profile → Result Profile
  decoded (ok p) = ok p
  decoded (err e) =
      if is no_documents e
      then err (sentinel profile_not_found)
      else err (wrapped (str "get profile: ") e)

  unfoldable pub get : Bytes → S → Result Profile
  get id s = decoded (db.find_one id s)

  abbrev pub appended : Option Err × S → Option Err × S
  appended (none, s) = (none, s)
  appended (some e, s) = (some (wrapped (str "append event: ") e), s)

  unfoldable pub append_event : Event → S → Option Err × S
  append_event e s = appended (db.insert_one e s)

  abbrev pub all_events : Result (Result (List Event)) → Result (List Event)
  all_events (err e) = err (wrapped (str "find events: ") e)
  all_events (ok (err e)) = err (wrapped (str "decode events: ") e)
  all_events (ok (ok es)) = ok es

  unfoldable pub events : Bytes → S → Result (List Event)
  events id s = all_events (db.find id s)

  -- The loop that fills the map.
  abbrev pub fill : List (Bytes × ℤ) → List (Bytes × ℤ) → List (Bytes × ℤ)
  fill out [] = out
  fill out ((kind, count) ∷ rows) = fill (insert kind count out) rows

  abbrev pub counted : Result (Result (List (Bytes × ℤ))) → Result (List (Bytes × ℤ))
  counted (err e) = err (wrapped (str "aggregate: ") e)
  counted (ok (err e)) = err (wrapped (str "decode agg: ") e)
  counted (ok (ok rows)) = ok (fill [] rows)

  unfoldable pub event_counts_by_type : Bytes → S → Result (List (Bytes × ℤ))
  event_counts_by_type id s = counted (db.aggregate id s)
