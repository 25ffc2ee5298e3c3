-- ===== src/Pipeline/Merge/Ending.antt =====
-- Every schedule of `Merge` ends.
use mathlib.Core.List.{append_assoc}
use go_learning.Common.{
  ℕ, suc, ◌+◌, ◌*◌, ◌≤◌, List, [], ◌∷◌, ◌++◌, false, All, map, length, ◌≡◌, ◌⊎◌, refl, sym, ap, ◌∙◌,
  inl, inr, arith,
}
use go_learning.Pipeline.Ending.{left_if}
use go_learning.Pipeline.Merge.{
  Forwarder, ranging, sending, returned, Merging, HasReturned, merge, MergeStep, take_value,
  end_of_channel, send_value, close_out, Merges, begin, go,
}

abbrev pub total : {T : Type 0} → List (List T) → ℕ
total [] = 0
total (vs ∷ vss) = length vs + total vss

module _ {T : Type 0} where
  abbrev steps_of : Forwarder T → ℕ
  steps_of (ranging vs) = suc (2 * length vs)
  steps_of (sending v vs) = suc (suc (2 * length vs))
  steps_of returned = 0

  abbrev steps_for : List (Forwarder T) → ℕ
  steps_for [] = 0
  steps_for (f ∷ fs) = steps_of f + steps_for fs

  steps_for-append :
      (fs gs : List (Forwarder T)) → steps_for (fs ++ gs) ≡ steps_for fs + steps_for gs
  steps_for-append [] gs = omega arith
  steps_for-append (f ∷ fs) gs = ground (arith, steps_for-append fs gs)

  steps_for_merge :
      (chans : List (List T)) → steps_for (map ranging chans) ≡ 2 * total chans + length chans
  steps_for_merge [] = refl
  steps_for_merge (c ∷ chans) = ground (arith, steps_for_merge chans)

  abbrev pub left : Merging T → ℕ
  left s = steps_for s.forwarders + left_if s.closed

  MergeStep-less : {s t : Merging T} → MergeStep s t → suc (left t) ≤ left s
  MergeStep-less {s} (take_value fs gs v vs e) =
      let h : steps_for s.forwarders ≡ steps_for fs + steps_for (ranging (v ∷ vs) ∷ gs) =
        ap steps_for e ∙ steps_for-append fs _ in
      let k = steps_for-append fs (sending v vs ∷ gs) in omega arith
  MergeStep-less {s} (end_of_channel fs gs e) =
      let h : steps_for s.forwarders ≡ steps_for fs + steps_for (ranging [] ∷ gs) =
        ap steps_for e ∙ steps_for-append fs _ in
      let k = steps_for-append fs (returned ∷ gs) in omega arith
  MergeStep-less {s} (send_value fs gs v vs e) =
      let h : steps_for s.forwarders ≡ steps_for fs + steps_for (sending v vs ∷ gs) =
        ap steps_for e ∙ steps_for-append fs _ in
      let k = steps_for-append fs (ranging vs ∷ gs) in omega arith
  MergeStep-less {s} (close_out on all) = let h = ap left_if on in omega arith

  abbrev pub CanMerge : Merging T → Type 0
  CanMerge s = (t : Merging T) × MergeStep s t

  one_working :
      (s : Merging T) (fs gs : List (Forwarder T)) (f : Forwarder T)
      → s.forwarders ≡ fs ++ f ∷ gs
      → CanMerge s ⊎ HasReturned f
  one_working s fs gs (ranging []) e = inl (_, end_of_channel {s = s} fs gs e)
  one_working s fs gs (ranging (v ∷ vs)) e = inl (_, take_value {s = s} fs gs v vs e)
  one_working s fs gs (sending v vs) e = inl (_, send_value {s = s} fs gs v vs e)
  one_working s fs gs returned e = inr tt

  look :
      (s : Merging T) (fs gs : List (Forwarder T))
      → s.forwarders ≡ fs ++ gs
      → CanMerge s ⊎ All HasReturned gs
  look s fs [] e = inr tt
  look s fs (g ∷ gs) e = elim (one_working s fs gs g e) [
    | inl can ↦ inl can
    | inr one ↦ elim (look s (fs ++ g ∷ []) gs (e ∙ sym (append_assoc fs (g ∷ []) gs))) [
      | inl can ↦ inl can
      | inr all ↦ inr (one, all)
    ]
  ]

  pub Merges-left :
      {chans : List (List T)} {k : ℕ} {s : Merging T}
      → Merges chans k s
      → k + left s ≤ 2 * total chans + length chans + 1
  unfolding merge
  Merges-left {chans} begin = omega (arith, steps_for_merge chans)
  Merges-left (go r step) = omega (arith, Merges-left r, MergeStep-less step)

  pub can_merge : (s : Merging T) → s.closed ≡ false → CanMerge s
  can_merge s on = elim (look s [] s.forwarders refl) [
    | inl can ↦ can
    | inr all ↦ (_, close_out {s = s} on all)
  ]
