-- ===== src/Genx.antt =====
-- m02-generics-and-idioms/solution-genx/genx.go: slice helpers, `Set` and `Paginate`.
-- Loops that append to `out` recur on the slice, with `out` as an argument.
pub mod Slices
pub mod Paging
pub mod Cover
pub mod Sets
mod Tests
use mathlib.Core.Option
use go_learning.Common.{
  ℕ, suc, zero, ◌-◌, ◌≤◌, List, [], ◌∷◌, ◌++◌, map, Option, none, some, Bool, true, false, length,
  take, drop, ltb, leb, if◌then◌else◌, Comparable,
}
use go_learning.Common.Int.{ℤ, pos, negsuc, ltb_ℤ, add64, sub64, mul64, quot}
use go_learning.Common.GoMap.{found, lookup, insert, delete, MapOrder}

-- The loop of `Map` writes `f(v)` at each index of a slice that has room for all.
unfoldable pub map_slice {ℓ κ} : {T : Type ℓ} {U : Type κ} → List T → (T → U) → List U
map_slice [] f = []
map_slice (v ∷ s) f = f v ∷ map_slice s f

filter_from {ℓ} : {T : Type ℓ} → List T → List T → (T → Bool) → List T
filter_from out [] keep = out
filter_from out (v ∷ s) keep = filter_from (if keep v then out ++ v ∷ [] else out) s keep

unfoldable pub filter_slice {ℓ} : {T : Type ℓ} → List T → (T → Bool) → List T
unfolding filter_from
filter_slice s keep = filter_from [] s keep

module _ {ℓ κ} {K : Type ℓ} {V : Type κ} where
  keys_from : List K → List (K × V) → List K
  keys_from out [] = out
  keys_from out ((k, v) ∷ m) = keys_from (out ++ k ∷ []) m

  values_from : List V → List (K × V) → List V
  values_from out [] = out
  values_from out ((k, v) ∷ m) = values_from (out ++ v ∷ []) m

  unfoldable pub keys : MapOrder K V → List (K × V) → List K
  unfolding keys_from
  keys order m = keys_from [] (order.visit m)

  unfoldable pub values : MapOrder K V → List (K × V) → List V
  unfolding values_from
  values order m = values_from [] (order.visit m)

-- `Set[T]`: a map with values that carry nothing.
pub record Set {ℓ} (T : Type ℓ) : Type ℓ where
  pub m : List (T × Unit {0})

module _ {ℓ} {T : Type ℓ} ⦃e : Comparable T⦄ where
  unfoldable pub add : Set T → T → Set T
  add s v = record { m = insert v tt s.m }

  unfoldable pub remove : Set T → T → Set T
  remove s v = record { m = delete v s.m }

  unfoldable pub has_item : Set T → T → Bool
  has_item s v = found (lookup v s.m)

  add_all : Set T → List T → Set T
  add_all s [] = s
  add_all s (it ∷ items) = add_all (add s it) items

  unfoldable pub new_set : List T → Set T
  unfolding add_all
  new_set items = add_all (record { m = [] }) items

unfoldable pub len {ℓ} : {T : Type ℓ} → Set T → ℕ
len s = length s.m

unfoldable pub set_items {ℓ} : {T : Type ℓ} → MapOrder T (Unit {0}) → Set T → List T
unfolding keys_from
set_items order s = keys_from [] (order.visit s.m)

-- `items[start:end]`; `none` is the run-time panic. The program never slices past the length.
unfoldable pub slice {ℓ} : {T : Type ℓ} → ℤ → ℤ → List T → Option (List T)
slice (pos a) (pos b) items =
    if leb a b then (if leb b (length items) then some (drop a (take b items)) else none) else none
slice (pos a) (negsuc b) items = none
slice (negsuc a) b items = none

pub record Page {ℓ} (T : Type ℓ) : Type ℓ where
  pub items : List T
  pub page : ℤ
  pub size : ℤ
  pub total : ℤ
  pub total_pages : ℤ
  pub has_next : Bool

-- The two tests that open `Paginate`.
unfoldable pub at_least_one : ℤ → ℤ → ℤ
at_least_one n def = if ltb_ℤ n (pos 1) then def else n

unfoldable pub at_most : ℤ → ℤ → ℤ
at_most n bound = if ltb_ℤ bound n then bound else n

abbrev pub page_of {ℓ} : {T : Type ℓ} → ℤ → ℤ → ℤ → ℤ → List T → Page T
page_of page size total total_pages window = record {
  items = window;
  page = page;
  size = size;
  total = total;
  total_pages = total_pages;
  has_next = ltb_ℤ page total_pages;
}

-- `none` is the panic of the slice expression.
unfoldable pub paginate {ℓ} : {T : Type ℓ} → List T → ℤ → ℤ → Option (Page T)
paginate items page₀ size₀ =
    let page = at_least_one page₀ (pos 1) in
    let size = at_least_one size₀ (pos 20) in
    let total = pos (length items) in
    let start = at_most (mul64 (sub64 page (pos 1)) size) total in
    let end = at_most (add64 start size) total in
    let total_pages = quot (sub64 (add64 total size) (pos 1)) size in
    Option.map (page_of page size total total_pages) (slice start end items)
