-- ===== src/Common/GoMap.antt =====
-- Go's `map[K]V` as an association list whose keys are distinct. The order of the list is the
-- order of insertion; code that ranges over a map goes through `MapOrder`.
use mathlib.Core.List.{Perm}
use mathlib.Core.List.Perm
use mathlib.Core.Path.{◌≡◌, refl}
use mathlib.Core.Bool.{Bool, true, false}
use mathlib.Core.Option.{Option, none, some}
use mathlib.Core.List.{List, [], ◌∷◌}
use Prim.Native.Nat.{suc}
use native.Mathlib.Omega.{arith}
use mathlib.Core.Logic.{inl, inr}
use go_learning.Common.Tests.{Comparable, ◌==◌, if◌then◌else◌, Bool-cases}
use go_learning.Common.Lists.{length, All}

-- The second result of `v, ok := m[k]`.
abbrev pub found {ℓ} : {V : Type ℓ} → Option V → Bool
found none = false
found (some v) = true

module _ {ℓ κ} {K : Type ℓ} {V : Type κ} ⦃e : Comparable K⦄ where
  -- `v, ok := m[k]`
  unfoldable pub lookup : K → List (K × V) → Option V
  lookup key [] = none
  lookup key (entry ∷ m) = if entry.0 == key then some entry.1 else lookup key m

  -- `m[k] = v`
  unfoldable pub insert : K → V → List (K × V) → List (K × V)
  insert key val [] = (key, val) ∷ []
  insert key val (entry ∷ m) = if entry.0 == key then (key, val) ∷ m else entry ∷ insert key val m

  -- `delete(m, k)`
  unfoldable pub delete : K → List (K × V) → List (K × V)
  delete k [] = []
  delete k ((j, v) ∷ m) = if j == k then delete k m else (j, v) ∷ delete k m

  unfoldable pub has : K → List (K × V) → Bool
  has k [] = false
  has k ((j, v) ∷ m) = if j == k then true else has k m

  -- No key stands twice.
  abbrev pub IsMap : List (K × V) → Type 0
  IsMap [] = Unit
  IsMap ((k, v) ∷ m) = (has k m ≡ false) × IsMap m

  pub lookup-insert :
      (key other : K) (val : V) (m : List (K × V))
      → lookup other (insert key val m) ≡ (if key == other then some val else lookup other m)
  unfolding lookup insert
  lookup-insert key other val [] = refl
  lookup-insert key other val ((i, w) ∷ m) = ground (
    arith,
    lookup-insert key other val m,
    e.equal_iff key other,
    e.equal_iff i key,
    e.equal_iff i other,
  )

  pub lookup-delete :
      (k j : K) (m : List (K × V)) → lookup j (delete k m) ≡ (if k == j then none else lookup j m)
  unfolding lookup delete
  lookup-delete k j [] = ground arith
  lookup-delete k j ((i, w) ∷ m) =
      ground (arith, e.equal_iff k j, e.equal_iff i k, e.equal_iff i j, lookup-delete k j m)

  pub has-insert :
      (k j : K) (v : V) (m : List (K × V))
      → has j (insert k v m) ≡ (if k == j then true else has j m)
  unfolding has insert
  has-insert k j v [] = refl
  has-insert k j v ((i, w) ∷ m) =
      ground (arith, e.equal_iff k j, e.equal_iff i k, e.equal_iff i j, has-insert k j v m)

  pub has-delete :
      (k j : K) (m : List (K × V)) → has j (delete k m) ≡ (if k == j then false else has j m)
  unfolding has delete
  has-delete k j [] = ground arith
  has-delete k j ((i, w) ∷ m) =
      ground (arith, e.equal_iff k j, e.equal_iff i k, e.equal_iff i j, has-delete k j m)

  pub has-lookup : (k : K) (m : List (K × V)) → has k m ≡ false → lookup k m ≡ none
  unfolding has lookup
  has-lookup k [] h = refl
  has-lookup k ((j, v) ∷ m) h = ground (arith, has-lookup k m)

  pub lookup-has : (k : K) (m : List (K × V)) → lookup k m ≡ none → has k m ≡ false
  unfolding has lookup
  lookup-has k [] h = refl
  lookup-has k ((j, v) ∷ m) h = ground (arith, lookup-has k m)

  pub insert-IsMap : (k : K) (v : V) (m : List (K × V)) → IsMap m → IsMap (insert k v m)
  unfolding insert has
  insert-IsMap k v [] h = (refl, tt)
  insert-IsMap k v ((j, w) ∷ m) h =
      ground (arith, e.equal_iff j k, e.equal_iff k j, has-insert k j v m, insert-IsMap k v m)

  pub delete-IsMap : (k : K) (m : List (K × V)) → IsMap m → IsMap (delete k m)
  unfolding delete
  delete-IsMap k [] h = tt
  delete-IsMap k ((j, w) ∷ m) h = ground (arith, has-delete k j m, delete-IsMap k m)

  pub length-insert_new :
      (k : K) (v : V) (m : List (K × V)) → has k m ≡ false → length (insert k v m) ≡ suc (length m)
  unfolding insert has
  length-insert_new k v [] h = refl
  length-insert_new k v ((j, w) ∷ m) h = ground (arith, length-insert_new k v m)

  pub length-insert_old :
      (k : K) (v : V) (m : List (K × V)) → has k m ≡ true → length (insert k v m) ≡ length m
  unfolding insert has
  length-insert_old k v [] h = cc
  length-insert_old k v ((j, w) ∷ m) h = ground (arith, length-insert_old k v m)

  pub found-lookup : (k : K) (m : List (K × V)) → found (lookup k m) ≡ has k m
  unfolding lookup has
  found-lookup k [] = refl
  found-lookup k ((j, v) ∷ m) = ground (arith, found-lookup k m)

  pub delete_absent : (k : K) (m : List (K × V)) → has k m ≡ false → delete k m ≡ m
  unfolding delete has
  delete_absent k [] h = refl
  delete_absent k ((j, v) ∷ m) h = ground (arith, delete_absent k m)

  pub length-delete :
      (k : K) (m : List (K × V)) → IsMap m → has k m ≡ true → suc (length (delete k m)) ≡ length m
  unfolding delete has
  length-delete k [] h p = cc
  length-delete k ((j, v) ∷ m) h p =
      ground (arith, e.equal_iff j k, delete_absent k m, length-delete k m)

  pub All-insert {μ} :
      (P : K × V → Type μ) (k : K) (v : V) (m : List (K × V))
      → All P m
      → P (k, v)
      → All P (insert k v m)
  unfolding insert
  All-insert P k v [] h p = (p, tt)
  All-insert P k v ((j, w) ∷ m) h p = elim (Bool-cases (j == k)) [
    | inl same ↦ rw same (p, h.1)
    | inr other ↦ rw other (h.0, All-insert P k v m h.1 p)
  ]

  pub All-lookup {μ} :
      (P : K × V → Type μ) (k : K) (v : V) (m : List (K × V))
      → All P m
      → lookup k m ≡ some v
      → P (k, v)
  unfolding lookup
  All-lookup P k v [] h found = cc
  All-lookup P k v ((j, w) ∷ m) h found = elim (Bool-cases (j == k)) [
    | inl same ↦
        let key : j ≡ k = (e.equal_iff j k).0 same in
        let val : w ≡ v = ground arith in rw (← key, ← val) h.0
    | inr other ↦ All-lookup P k v m h.1 (ground arith)
  ]

-- Ranging over a map visits its pairs once each, in an order that the runtime chooses.
pub record MapOrder {ℓ κ} (K : Type ℓ) (V : Type κ) : Type (ℓ ⊔ κ) where
  pub visit : List (K × V) → List (K × V)
  pub visit_perm : (m : List (K × V)) → Perm (visit m) m

abbrev pub insertion_order {ℓ κ} : {K : Type ℓ} {V : Type κ} → MapOrder K V
insertion_order = record { visit = λ m. m; visit_perm = λ m. Perm.refl m }
