-- ===== src/ProfileRpc/Repo.antt =====
-- m05-grpc/solution-profile/profile.go: the domain, the storage contract `Repo`, and the repository
-- in memory, each of whose methods holds the lock throughout. A time is its nanoseconds since 1970.
use go_learning.Common.{ℕ, List, [], ◌∷◌, ◌++◌, Option, none, some, Bytes, string_comparable, ◌≡◌}
use go_learning.Common.GoMap.{lookup, insert}
use go_learning.GoErrors.{sentinel, profile_not_found, Result, ok, err}

pub record Profile : Type 0 where
  pub customer_id : Bytes
  pub traits : List (Bytes × Bytes)
  pub updated_at : ℕ

pub record Event : Type 0 where
  pub id : Bytes
  pub customer_id : Bytes
  pub kind : Bytes
  pub occurred_at : ℕ

-- The interface `Repo`, over the state `S` that the implementation keeps.
pub record Repo (S : Type 0) : Type 1 where
  pub get : S → Bytes → Result Profile
  pub upsert : S → Profile → Result Profile × S
  pub events : S → Bytes → Result (List Event)

-- What the contract asks for: a profile that was stored is found under its customer's id.
pub record IsRepo {S : Type 0} (r : Repo S) : Type 0 where
  pub get_upsert :
      (s : S) (p saved : Profile) (s' : S)
      → r.upsert s p ≡ (ok saved, s')
      → r.get s' p.customer_id ≡ ok saved

pub record InMemoryRepo : Type 0 where
  pub profiles : List (Bytes × Profile)
  pub event_lists : List (Bytes × List Event)

unfoldable pub new_in_memory_repo : InMemoryRepo
new_in_memory_repo = record { profiles = []; event_lists = [] }

abbrev pub found_profile : Option Profile → Result Profile
found_profile none = err (sentinel profile_not_found)
found_profile (some p) = ok p

unfoldable pub get_profile_of : InMemoryRepo → Bytes → Result Profile
get_profile_of r id = found_profile (lookup id r.profiles)

unfoldable pub put_profile : InMemoryRepo → Profile → Result Profile × InMemoryRepo
put_profile r p =
    (ok p, record { profiles = insert p.customer_id p r.profiles; event_lists = r.event_lists })

-- A missing key of the map of slices reads as nil, the empty list.
unfoldable pub list_at : Bytes → InMemoryRepo → List Event
list_at id r = elim (lookup id r.event_lists) [ none ↦ [] | some es ↦ es ]

unfoldable pub add_event : InMemoryRepo → Bytes → Event → InMemoryRepo
add_event r id e = record {
  profiles = r.profiles;
  event_lists = insert id (list_at id r ++ e ∷ []) r.event_lists;
}

unfoldable pub events_of : InMemoryRepo → Bytes → Result (List Event)
events_of r id = ok (list_at id r)

unfoldable pub in_memory : Repo InMemoryRepo
in_memory = record { get = get_profile_of; upsert = put_profile; events = events_of }
