-- ===== src/MongoProfile/Stored.antt =====
-- What is found of a stored profile, and the map of counts.
use go_learning.Common.{
  ℕ, ◌*◌, ◌/◌, List, [], ◌∷◌, Option, none, some, Bytes, bytes_eq, string_comparable, ◌≡◌, refl, ap,
  ◌∙◌, arith, if◌then◌else◌,
}
use go_learning.Common.Int.{ℤ}
use go_learning.Common.GoMap.{lookup, insert, lookup-insert}
use go_learning.GoErrors.{Err, ok}
use go_learning.ProfileRpc.Repo.{Profile}
use go_learning.ProfileRpc.Server.{second}
use go_learning.MongoProfile.{
  Mongo, upserted, upsert, get, decoded, fill, counted, event_counts_by_type,
}

abbrev pub millisecond : ℕ
millisecond = 1000000

-- A BSON date has milliseconds.
abbrev pub cut : ℕ → ℕ
cut t = (t / millisecond) * millisecond

-- What MongoDB promises of an upsert that succeeds: the document with this `_id` has the fields that
-- were set.
pub record IsUpserting {S : Type 0} (db : Mongo S) : Type 0 where
  pub finds :
      (id : Bytes) (traits : List (Bytes × Bytes)) (t : ℕ) (s : S)
      → (db.update_one id traits t s).0 ≡ none
      → db.find_one id (db.update_one id traits t s).1
        ≡ ok (record { customer_id = id; traits = traits; updated_at = cut t })

module _ {S : Type 0} (db : Mongo S) where
  -- After an `Upsert` whose update succeeds, `Get` returns the profile with its traits and the time
  -- of the upsert cut to the millisecond, while `Upsert` itself returned the uncut time; in
  -- seconds, as the gRPC service shows them, the two times are the same.
  pub upsert-get_stored :
      (stores : IsUpserting db) (now : ℕ) (p : Profile) (s : S)
      → (db.update_one p.customer_id p.traits now s).0 ≡ none
      → ((upsert db now p s).0 ≡ ok (record p { updated_at = now }))
        × (get db p.customer_id (upsert db now p s).1 ≡ ok (record p { updated_at = cut now }))
        × (cut now / second ≡ now / second)
  unfolding upsert get
  upsert-get_stored stores now p s fine = (
    done.0,
    ap (λ t. decoded db (db.find_one p.customer_id t)) done.1
        ∙ ap (decoded db) (stores.finds p.customer_id p.traits now s fine),
    omega arith,
  )
    where
      split :
          (out : Option Err × S)
          → out.0 ≡ none
          → ((upserted db (record p { updated_at = now }) out).0
              ≡ ok (record p { updated_at = now }))
            × ((upserted db (record p { updated_at = now }) out).1 ≡ out.1)
      split (none, t) e = (refl, refl)
      split (some x, t) e = cc

      done :
          ((upserted db
              (record p { updated_at = now })
              (db.update_one p.customer_id p.traits now s)).0
            ≡ ok (record p { updated_at = now }))
          × ((upserted db
                (record p { updated_at = now })
                (db.update_one p.customer_id p.traits now s)).1
              ≡ (db.update_one p.customer_id p.traits now s).1)
      done = split (db.update_one p.customer_id p.traits now s) fine

  -- The count of the last row for a kind.
  abbrev pub last_count : Bytes → Option ℤ → List (Bytes × ℤ) → Option ℤ
  last_count kind found [] = found
  last_count kind found ((k, n) ∷ rows) =
      last_count kind (if bytes_eq k kind then some n else found) rows

  fill-lookup :
      (kind : Bytes) (out rows : List (Bytes × ℤ))
      → lookup kind (fill db out rows) ≡ last_count kind (lookup kind out) rows
  fill-lookup kind out [] = refl
  fill-lookup kind out ((k, n) ∷ rows) =
      fill-lookup kind (insert k n out) rows
      ∙ ap (λ o. last_count kind o rows) (lookup-insert k kind n out)

  -- `EventCountsByType` makes of the rows of the aggregation a map that has for each kind the
  -- count of the last row with it, and nothing for a kind that no row has.
  pub event_counts_lem :
      (id : Bytes) (s : S) (rows : List (Bytes × ℤ))
      → db.aggregate id s ≡ ok (ok rows)
      → (event_counts_by_type db id s ≡ ok (fill db [] rows))
        × ((kind : Bytes) → lookup kind (fill db [] rows) ≡ last_count kind none rows)
  unfolding event_counts_by_type lookup
  event_counts_lem id s rows e = (ap (counted db) e, λ kind. fill-lookup kind [] rows)
