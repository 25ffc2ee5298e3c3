-- ===== src/Genx/Slices.antt =====
-- `Map`, `Filter`, `Keys` and `Values` against the library's list functions.
use mathlib.Core.List.{filter, append_assoc, append-nil, Perm}
use mathlib.Core.List.Perm
use mathlib.Core.Bool.{false≢true}
use go_learning.Common.{
  List, [], ◌∷◌, ◌++◌, map, Bool, true, false, ◌≡◌, refl, sym, ap, ◌∙◌, Bool-cases, inl, inr,
}
use go_learning.Common.GoMap.{MapOrder}
use go_learning.Genx.{map_slice, filter_slice, filter_from, keys, values, keys_from, values_from}

abbrev pub is_true : (b : Bool) → Dec (b ≡ true)
is_true true = yes refl
is_true false = no false≢true

module _ {ℓ} {T : Type ℓ} (keep : T → Bool) where
  abbrev kept : List T → List T
  kept = filter (λ x. is_true (keep x))

  filter_from-append : (out s : List T) → filter_from out s keep ≡ out ++ kept s
  unfolding filter_from
  filter_from-append out [] = sym (append-nil out)
  filter_from-append out (v ∷ s) = elim (Bool-cases (keep v)) [
    | inl e ↦ rw e (filter_from-append (out ++ v ∷ []) s ∙ append_assoc out (v ∷ []) (kept s))
    | inr e ↦ rw e (filter_from-append out s)
  ]

  -- `Filter` returns the elements for which `keep` holds, in order, as the library's `filter` does.
  pub filter_slice-filter : (s : List T) → filter_slice s keep ≡ filter (λ x. is_true (keep x)) s
  unfolding filter_slice
  filter_slice-filter s = filter_from-append [] s

pub map_slice-map {ℓ κ} :
    {T : Type ℓ} {U : Type κ} (s : List T) (f : T → U) → map_slice s f ≡ map f s
unfolding map_slice
map_slice-map [] f = refl
map_slice-map (v ∷ s) f = ap (λ r. f v ∷ r) (map_slice-map s f)

module _ {ℓ κ} {K : Type ℓ} {V : Type κ} where
  keys_from-append : (out : List K) (m : List (K × V)) → keys_from out m ≡ out ++ map (λ p. p.0) m
  unfolding keys_from
  keys_from-append out [] = sym (append-nil out)
  keys_from-append out ((k, v) ∷ m) =
      keys_from-append (out ++ k ∷ []) m ∙ append_assoc out (k ∷ []) (map (λ p. p.0) m)

  values_from-append :
      (out : List V) (m : List (K × V)) → values_from out m ≡ out ++ map (λ p. p.1) m
  unfolding values_from
  values_from-append out [] = sym (append-nil out)
  values_from-append out ((k, v) ∷ m) =
      values_from-append (out ++ v ∷ []) m ∙ append_assoc out (v ∷ []) (map (λ p. p.1) m)

  -- Whatever order the runtime visits a map in, `Keys` and `Values` return each key and each value
  -- of the map, as often as it stands there, in some order.
  pub keys-values-perm :
      (order : MapOrder K V) (m : List (K × V))
      → Perm (keys order m) (map (λ p. p.0) m) × Perm (values order m) (map (λ p. p.1) m)
  unfolding keys values
  keys-values-perm order m = (
    rw (keys_from-append [] (order.visit m)) (Perm.map (λ p. p.0) (order.visit_perm m)),
    rw (values_from-append [] (order.visit m)) (Perm.map (λ p. p.1) (order.visit_perm m)),
  )
