-- ===== src/Store/Laws.antt =====
-- The store against the history of the calls that changed it, and the schedules of two goroutines.
use mathlib.Core.List.{append_assoc, append-nil, Perm}
use mathlib.Core.List.Perm
use go_learning.Common.{
  List, [], ◌∷◌, ◌++◌, map, Option, none, some, false, if◌then◌else◌, Comparable, ◌==◌, ◌≡◌, refl,
  sym, ◌∙◌, All,
}
use go_learning.Common.GoMap.{
  lookup, MapOrder, lookup-insert, lookup-delete, IsMap, insert-IsMap, delete-IsMap,
}
use go_learning.Store.{Store, new_store, put, get, remove_key, all_from, all_values}

pub data Call {ℓ κ} (K : Type ℓ) (V : Type κ) : Type (ℓ ⊔ κ) where
  put_call : K → V → Call K V
  delete_call : K → Call K V

-- An interleaving of the calls of two goroutines, each in its own order.
pub data Interleaving {ℓ} {A : Type ℓ} : List A → List A → List A → Type ℓ where
  done : Interleaving [] [] []
  left : {x : A} {xs ys zs : List A} → Interleaving xs ys zs → Interleaving (x ∷ xs) ys (x ∷ zs)
  right : {y : A} {xs ys zs : List A} → Interleaving xs ys zs → Interleaving xs (y ∷ ys) (y ∷ zs)

module _ {ℓ κ} {K : Type ℓ} {V : Type κ} ⦃e : Comparable K⦄ where
  abbrev pub call : Store K V → Call K V → Store K V
  call s (put_call k v) = put s k v
  call s (delete_call k) = remove_key s k

  abbrev pub run : Store K V → List (Call K V) → Store K V
  run s [] = s
  run s (c ∷ cs) = run (call s c) cs

  -- What a history says of a key that held `v` at its start.
  abbrev pub effect : K → Option V → Call K V → Option V
  effect k v (put_call j w) = if j == k then some w else v
  effect k v (delete_call j) = if j == k then none else v

  abbrev pub history : K → Option V → List (Call K V) → Option V
  history k v [] = v
  history k v (c ∷ cs) = history k (effect k v c) cs

  get-call : (s : Store K V) (c : Call K V) (k : K) → get (call s c) k ≡ effect k (get s k) c
  unfolding get put remove_key
  get-call s (put_call j w) k = lookup-insert j k w s.m
  get-call s (delete_call j) k = lookup-delete j k s.m

  get-run_from :
      (s : Store K V) (cs : List (Call K V)) (k : K) → get (run s cs) k ≡ history k (get s k) cs
  get-run_from s [] k = refl
  get-run_from s (c ∷ cs) k = rw (← get-call s c k) (get-run_from (call s c) cs k)

  call-IsMap : (s : Store K V) (c : Call K V) → IsMap s.m → IsMap (call s c).m
  unfolding put remove_key
  call-IsMap s (put_call k v) h = insert-IsMap k v s.m h
  call-IsMap s (delete_call k) h = delete-IsMap k s.m h

  run-IsMap : (s : Store K V) (cs : List (Call K V)) → IsMap s.m → IsMap (run s cs).m
  run-IsMap s [] h = h
  run-IsMap s (c ∷ cs) h = run-IsMap (call s c) cs (call-IsMap s c h)

  -- After any sequence of `Put` and `Delete` on a new store, `Get` returns what the last call for
  -- the key left: the value of a `Put`, and nothing after a `Delete` or with no call for the key.
  -- The map under the store keeps its keys distinct.
  pub get-run :
      (cs : List (Call K V))
      → ((k : K) → get (run new_store cs) k ≡ history k none cs) × IsMap (run new_store cs).m
  unfolding new_store get lookup
  get-run cs = ((λ k. get-run_from new_store cs k), run-IsMap new_store cs tt)

  -- No call of a list is for the key.
  abbrev pub Spares : K → Call K V → Type 0
  Spares k (put_call j v) = (j == k) ≡ false
  Spares k (delete_call j) = (j == k) ≡ false

  effect_of_Spares : (k : K) (v : Option V) (c : Call K V) → Spares k c → effect k v c ≡ v
  effect_of_Spares k v (put_call j w) h = rw h
  effect_of_Spares k v (delete_call j) h = rw h

  history-Interleaving :
      (k : K) (v : Option V) (xs ys zs : List (Call K V))
      → Interleaving xs ys zs
      → All (Spares k) ys
      → history k v zs ≡ history k v xs
  history-Interleaving k v _ _ _ done h = refl
  history-Interleaving k v _ _ _ (left {x} {xs} {ys} {zs} i) h =
      history-Interleaving k (effect k v x) xs ys zs i h
  history-Interleaving k v _ _ _ (right {y} {xs} {ys} {zs} i) h =
      rw (effect_of_Spares k v y h.0) (history-Interleaving k v xs ys zs i h.1)

  -- Two goroutines work on one store, in any interleaving of their calls. A goroutine finds its key
  -- as if it had run alone, when the other one makes no call for that key.
  pub get-Interleaving :
      (s : Store K V) (k : K) (xs ys zs : List (Call K V))
      → Interleaving xs ys zs
      → All (Spares k) ys
      → get (run s zs) k ≡ get (run s xs) k
  get-Interleaving s k xs ys zs i h =
      get-run_from s zs k
      ∙ history-Interleaving k (get s k) xs ys zs i h
      ∙ sym (get-run_from s xs k)

module _ {ℓ κ} {K : Type ℓ} {V : Type κ} where
  all_from-append : (out : List V) (m : List (K × V)) → all_from out m ≡ out ++ map (λ p. p.1) m
  unfolding all_from
  all_from-append out [] = sym (append-nil out)
  all_from-append out ((k, v) ∷ m) =
      all_from-append (out ++ v ∷ []) m ∙ append_assoc out (v ∷ []) (map (λ p. p.1) m)

  -- `All` returns the values of the store, as often as they stand there, in some order.
  pub all_values-perm :
      (order : MapOrder K V) (s : Store K V) → Perm (all_values order s) (map (λ p. p.1) s.m)
  unfolding all_values
  all_values-perm order s =
      rw (all_from-append [] (order.visit s.m)) (Perm.map (λ p. p.1) (order.visit_perm s.m))
