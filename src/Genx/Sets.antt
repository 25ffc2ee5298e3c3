-- ===== src/Genx/Sets.antt =====
-- `Set` behaves as a set of values.
use go_learning.Common.{
  suc, List, [], ◌∷◌, Bool, true, false, ◌||◌, if◌then◌else◌, length, Comparable, ◌==◌, ◌≡◌, refl,
  arith, ap, sym, Bool-cases, inl, inr,
}
use go_learning.Common.GoMap.{
  lookup-insert, lookup-delete, length-insert_new, length-insert_old, has, lookup, found-lookup,
  delete_absent, length-delete, IsMap, insert-IsMap, delete-IsMap,
}
use go_learning.Genx.{Set, add, remove, has_item, new_set, add_all, len}

module _ {ℓ} {T : Type ℓ} ⦃e : Comparable T⦄ where
  -- The values of a list, as `NewSet` is given them.
  abbrev pub contains : List T → T → Bool
  contains [] v = false
  contains (it ∷ items) v = it == v || contains items v

  pub has_item-add :
      (s : Set T) (v w : T) → has_item (add s v) w ≡ (if v == w then true else has_item s w)
  unfolding has_item add
  has_item-add s v w = elim (Bool-cases (v == w)) [
    | inl same ↦ rw (lookup-insert v w tt s.m) (rw same)
    | inr other ↦ rw (lookup-insert v w tt s.m) (rw other)
  ]

  pub has_item-remove :
      (s : Set T) (v w : T) → has_item (remove s v) w ≡ (if v == w then false else has_item s w)
  unfolding has_item remove
  has_item-remove s v w = elim (Bool-cases (v == w)) [
    | inl same ↦ rw (lookup-delete v w s.m) (rw same)
    | inr other ↦ rw (lookup-delete v w s.m) (rw other)
  ]

  has_item-add_all :
      (s : Set T) (items : List T) (v : T)
      → has_item (add_all s items) v ≡ (contains items v || has_item s v)
  unfolding add_all
  has_item-add_all s [] v = refl
  has_item-add_all s (it ∷ items) v =
      ground (arith, has_item-add_all (add s it) items v, has_item-add s it v)

  -- After `Add` and `Remove`, and for a set built by `NewSet`, `Has` answers as for the
  -- mathematical set: an added value is in, a removed one is out, other values are as before, and
  -- a new set has the values of its arguments.
  pub has_item_lem :
      (s : Set T) (items : List T) (v w : T)
      → (has_item (add s v) w ≡ (if v == w then true else has_item s w))
        × (has_item (remove s v) w ≡ (if v == w then false else has_item s w))
        × (has_item (new_set items) w ≡ contains items w)
  unfolding new_set has_item lookup
  has_item_lem s items v w = (
    has_item-add s v w,
    has_item-remove s v w,
    ground (arith, has_item-add_all (record { m = [] }) items w),
  )

  add_all-IsMap : (s : Set T) (items : List T) → IsMap s.m → IsMap (add_all s items).m
  unfolding add_all add
  add_all-IsMap s [] h = h
  add_all-IsMap s (it ∷ items) h = add_all-IsMap (add s it) items (insert-IsMap it tt s.m h)

  -- `Len` counts values once each: adding a value that is in, or removing one that is not, leaves
  -- it, and otherwise it goes up or down by one. The underlying map stays one with distinct keys,
  -- as a new set's is.
  pub len_lem :
      (s : Set T) (v : T)
      → IsMap s.m
      → (len (add s v) ≡ (if has_item s v then len s else suc (len s)))
        × (len s ≡ (if has_item s v then suc (len (remove s v)) else len (remove s v)))
        × IsMap (add s v).m
        × IsMap (remove s v).m
  unfolding len has_item add remove
  len_lem s v h = elim (Bool-cases (has v s.m)) [
    | inl old ↦
        rw (found-lookup v s.m, old)
          (
            length-insert_old v tt s.m old,
            sym (length-delete v s.m h old),
            insert-IsMap v tt s.m h,
            delete-IsMap v s.m h,
          )
    | inr new ↦
        rw (found-lookup v s.m, new)
          (
            length-insert_new v tt s.m new,
            ap length (sym (delete_absent v s.m new)),
            insert-IsMap v tt s.m h,
            delete-IsMap v s.m h,
          )
  ]

  pub new_set-IsMap : (items : List T) → IsMap (new_set items).m
  unfolding new_set
  new_set-IsMap items = add_all-IsMap (record { m = [] }) items tt
