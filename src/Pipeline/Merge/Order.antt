-- ===== src/Pipeline/Merge/Order.antt =====
-- `Merge` loses, doubles and invents nothing, and keeps the order of each channel.
use mathlib.Core.List.{append_assoc, append-nil}
use go_learning.Common.{
  ℕ, ◌+◌, ◌*◌, ◌≤◌, List, [], ◌∷◌, ◌++◌, true, false, All, map, length, ◌≡◌, ◌⊎◌, refl, sym, ap,
  ◌∙◌, subst, inl, inr, arith, Bool-cases,
}
use go_learning.Pipeline.Merge.{
  Forwarder, ranging, sending, returned, Merging, HasReturned, merge, MergeStep, take_value,
  end_of_channel, send_value, close_out, Merges, begin, go,
}
use go_learning.Pipeline.Merge.Ending.{total, can_merge, Merges-left}

-- The list is made of the given ones, each in its order, and of nothing else.
pub data Shuffle {T : Type 0} : List (List T) → List T → Type 0 where
  none_left : {vss : List (List T)} → All (λ vs. vs ≡ []) vss → Shuffle vss []
  next_of :
      {wss : List (List T)} {zs : List T} (xss yss : List (List T)) (v : T) (vs : List T)
      → wss ≡ xss ++ (v ∷ vs) ∷ yss
      → Shuffle (xss ++ vs ∷ yss) zs
      → Shuffle wss (v ∷ zs)

module _ {T : Type 0} where
  -- The values of a channel that were not received from the output.
  abbrev pending : Forwarder T → List T
  pending (ranging vs) = vs
  pending (sending v vs) = v ∷ vs
  pending returned = []

  map-pending :
      (fs gs : List (Forwarder T)) → map pending (fs ++ gs) ≡ map pending fs ++ map pending gs
  map-pending [] gs = refl
  map-pending (f ∷ fs) gs = ap (λ r. pending f ∷ r) (map-pending fs gs)

  pending-none :
      (fs : List (Forwarder T)) → All HasReturned fs → All (λ vs. vs ≡ []) (map pending fs)
  pending-none [] h = tt
  pending-none (ranging vs ∷ fs) (h, hs) = absurd h
  pending-none (sending v vs ∷ fs) (h, hs) = absurd h
  pending-none (returned ∷ fs) (h, hs) = (refl, pending-none fs hs)

  pending_merge : (chans : List (List T)) → map pending (map ranging chans) ≡ chans
  pending_merge [] = refl
  pending_merge (c ∷ chans) = ap (λ r. c ∷ r) (pending_merge chans)

  -- What is pending may follow in any order that keeps the one of each channel.
  Extends : List (List T) → Merging T → Type 0
  Extends chans s =
      (zs : List T) → Shuffle (map pending s.forwarders) zs → Shuffle chans (s.out ++ zs)

  same_pending :
      (ts : List (Forwarder T)) (fs gs : List (Forwarder T)) (f g : Forwarder T)
      → ts ≡ fs ++ f ∷ gs
      → pending f ≡ pending g
      → map pending (fs ++ g ∷ gs) ≡ map pending ts
  same_pending ts fs gs f g e same =
      map-pending fs (g ∷ gs)
      ∙ ap (λ p. map pending fs ++ p ∷ map pending gs) (sym same)
      ∙ sym (map-pending fs (f ∷ gs))
      ∙ ap (map pending) (sym e)

  Step-Extends :
      (chans : List (List T)) {s t : Merging T} → MergeStep s t → Extends chans s → Extends chans t
  unfolding Extends
  Step-Extends chans {s} (take_value fs gs v vs e) h zs shuffled =
      h zs (subst (λ p. Shuffle p zs) (same_pending s.forwarders fs gs _ _ e refl) shuffled)
  Step-Extends chans {s} (end_of_channel fs gs e) h zs shuffled =
      h zs (subst (λ p. Shuffle p zs) (same_pending s.forwarders fs gs _ _ e refl) shuffled)
  Step-Extends chans {s} (send_value fs gs v vs e) h zs shuffled =
      subst (Shuffle chans) (sym (append_assoc s.out (v ∷ []) zs)) (
        h (v ∷ zs) (
          next_of (map pending fs) (map pending gs) v vs
            (ap (map pending) e ∙ map-pending fs (sending v vs ∷ gs))
            (subst (λ p. Shuffle p zs) (map-pending fs (ranging vs ∷ gs)) shuffled)))
  Step-Extends chans {s} (close_out on all) h zs shuffled = h zs shuffled

  -- Once the output is closed, all have returned.
  Closing : Merging T → Type 0
  Closing s = (s.closed ≡ false) ⊎ All HasReturned s.forwarders

  all_but :
      (ts fs gs : List (Forwarder T)) (f : Forwarder T)
      → ts ≡ fs ++ f ∷ gs
      → All HasReturned ts
      → HasReturned f
  all_but ts fs gs f e all = middle fs (subst (All HasReturned) e all)
    where
      middle : (fs : List (Forwarder T)) → All HasReturned (fs ++ f ∷ gs) → HasReturned f
      middle [] (h, hs) = h
      middle (x ∷ fs) (h, hs) = middle fs hs

  Step-Closing : {s t : Merging T} → MergeStep s t → Closing s → Closing t
  unfolding Closing
  Step-Closing {s} (take_value fs gs v vs e) (inl on) = inl on
  Step-Closing {s} (take_value fs gs v vs e) (inr all) =
      absurd (all_but s.forwarders fs gs (ranging (v ∷ vs)) e all)
  Step-Closing {s} (end_of_channel fs gs e) (inl on) = inl on
  Step-Closing {s} (end_of_channel fs gs e) (inr all) =
      absurd (all_but s.forwarders fs gs (ranging []) e all)
  Step-Closing {s} (send_value fs gs v vs e) (inl on) = inl on
  Step-Closing {s} (send_value fs gs v vs e) (inr all) =
      absurd (all_but s.forwarders fs gs (sending v vs) e all)
  Step-Closing {s} (close_out on all) h = inr all

  Merges-Extends :
      {chans : List (List T)} {k : ℕ} {s : Merging T} → Merges chans k s → Extends chans s
  unfolding Extends merge
  Merges-Extends {chans} begin zs shuffled =
      subst (λ p. Shuffle p zs) (pending_merge chans) shuffled
  Merges-Extends {chans} (go r step) zs shuffled =
      Step-Extends chans step (Merges-Extends r) zs shuffled

  Merges-Closing : {chans : List (List T)} {k : ℕ} {s : Merging T} → Merges chans k s → Closing s
  unfolding Closing merge
  Merges-Closing begin = inl refl
  Merges-Closing (go r step) = Step-Closing step (Merges-Closing r)

  -- Whatever the order in which the goroutines of `Merge` take their steps: these are at most two for
  -- each value, one for each channel, and one more; and either the output is closed, and then what was
  -- received from it has the values of all channels, each once and those of a channel in its order, and
  -- nothing else; or some goroutine can take a step, so that the output is closed in the end.
  pub merge_shuffles :
      (chans : List (List T)) (k : ℕ) (s : Merging T)
      → Merges chans k s
      → (k ≤ 2 * total chans + length chans + 1)
        × (((s.closed ≡ true) × Shuffle chans s.out) ⊎ ((t : Merging T) × MergeStep s t))
  unfolding Extends Closing
  merge_shuffles chans k s r = (
    omega (arith, Merges-left r),
    elim (Bool-cases s.closed) [ inr on ↦ inr (can_merge s on) | inl c ↦ inl (c, all_received c) ],
  )
    where
      all_received : s.closed ≡ true → Shuffle chans s.out
      all_received c = elim (Merges-Closing r) [
        | inl on ↦ absurd (cc)
        | inr all ↦
            subst (Shuffle chans) (append-nil s.out)
              (Merges-Extends r [] (none_left (pending-none s.forwarders all)))
      ]
