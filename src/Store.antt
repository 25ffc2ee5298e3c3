-- ===== src/Store.antt =====
-- m02-generics-and-idioms/solution-store/store.go: a map behind a mutex. Each method holds the lock
-- from its first line to its return, so a run of several goroutines is a sequence of whole calls.
pub mod Laws
mod Tests
use go_learning.Common.{ℕ, List, [], ◌∷◌, ◌++◌, Option, Bool, length, Comparable}
use go_learning.Common.GoMap.{found, lookup, insert, delete, MapOrder}

pub record Store {ℓ κ} (K : Type ℓ) (V : Type κ) : Type (ℓ ⊔ κ) where
  pub m : List (K × V)

unfoldable pub new_store {ℓ κ} : {K : Type ℓ} {V : Type κ} → Store K V
new_store = record { m = [] }

module _ {ℓ κ} {K : Type ℓ} {V : Type κ} ⦃e : Comparable K⦄ where
  unfoldable pub put : Store K V → K → V → Store K V
  put s key val = record { m = insert key val s.m }

  -- `none` is the result `(zero value, false)`.
  unfoldable pub get : Store K V → K → Option V
  get s key = lookup key s.m

  unfoldable pub remove_key : Store K V → K → Store K V
  remove_key s key = record { m = delete key s.m }

module _ {ℓ κ} {K : Type ℓ} {V : Type κ} where
  unfoldable pub store_len : Store K V → ℕ
  store_len s = length s.m

  all_from : List V → List (K × V) → List V
  all_from out [] = out
  all_from out ((k, v) ∷ m) = all_from (out ++ v ∷ []) m

  unfoldable pub all_values : MapOrder K V → Store K V → List V
  unfolding all_from
  all_values order s = all_from [] (order.visit s.m)
