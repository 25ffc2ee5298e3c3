-- ===== src/Pipeline/Outcome.antt =====
-- What `Run` returns.
use go_learning.Common.{
  ℕ, suc, ◌<◌, ◌≤◌, List, [], ◌∷◌, Option, none, some, false, nat_eq, nat_eq_iff, All,
  num_comparable, ◌≡◌, ◌⊎◌, refl, ap, ◌∙◌, subst, inl, inr, arith, Bool-cases, if◌then◌else◌,
}
use go_learning.Common.GoMap.{lookup}
use go_learning.GoErrors.{Err, Result, ok, err}
use go_learning.Pipeline.{State, Reaches, IsFinished, outcome}
use go_learning.Pipeline.Accounting.{times, results_for}
use go_learning.Pipeline.Kept.{IsRight, Cause, Inv, Reaches-Inv}

module _ {R : Type 0} (work : ℕ → Result R) (n workers : ℕ) where
  found_result :
      (i : ℕ) (ps : List (ℕ × R))
      → All (IsRight work n workers) ps
      → 1 ≤ results_for i ps
      → (x : R) × (lookup i ps ≡ some x) × (work i ≡ ok x)
  unfolding lookup
  found_result i [] h le = absurd (omega arith)
  found_result i ((j, x) ∷ ps) (h, hs) le = elim (Bool-cases (nat_eq j i)) [
    | inl same ↦ (
      x,
      ap (λ b. if b then some x else lookup i ps) same,
      subst (λ k. work k ≡ ok x) ((nat_eq_iff j i).0 same) h,
    )
    | inr other ↦
        let less : 1 ≤ results_for i ps =
          subst (λ b. 1 ≤ (if b then suc (results_for i ps) else results_for i ps)) other le in
        let (y, found, right) = found_result i ps hs less in
        (y, ap (λ b. if b then some x else lookup i ps) other ∙ found, right)
  ]

  -- Whatever the order in which feeder, workers and receiver take their steps, once all of them have
  -- returned, and with a context that the caller did not cancel: `Run` returns an error that `work`
  -- returned for some item; or it returns the results, and then `work` succeeded for each item, and
  -- the result at the item's index is what it returned.
  pub run_outcome :
      (s : State R) (i : ℕ)
      → Reaches work n workers s
      → IsFinished s
      → s.parent ≡ false
      → i < n
      → ((e : Err) × (j : ℕ) × (j < n) × (work j ≡ err e) × (outcome s ≡ err e))
        ⊎ ((x : R) × (outcome s ≡ ok s.results) × (lookup i s.results ≡ some x) × (work i ≡ ok x))
  run_outcome s i r (closed, idle, empty) alone lt = decide s.failed refl v.cause
    where
      v : Inv work n workers s
      v = Reaches-Inv work n workers r

      outcome_of : Option Err → Result (List (ℕ × R))
      outcome_of o = elim o [ none ↦ ok s.results | some e ↦ err e ]

      quiet : s.failed ≡ none → s.cancelled ≡ false
      quiet no_error = elim v.why [
        | inl on ↦ on
        | inr (inl gone) ↦ absurd (cc)
        | inr (inr (e, failed)) ↦ absurd (cc)
      ]

      all_there : s.cancelled ≡ false → 1 ≤ results_for i s.results
      all_there on =
          let fed_all : s.fed ≡ n = elim v.ended [
            | inl unclosed ↦ absurd (cc)
            | inr (inl e) ↦ e
            | inr (inr c) ↦ absurd (cc)
          ] in
          let none_lost : s.lost ≡ [] = elim v.whole [ inl e ↦ e | inr c ↦ absurd (cc) ] in
          let b = ap (times i) idle in
          let q = ap (results_for i) empty in
          let l = ap (times i) none_lost in ground (arith, v.accounted i)

      decide :
          (o : Option Err)
          → s.failed ≡ o
          → Cause work n workers o
          → ((e : Err) × (j : ℕ) × (j < n) × (work j ≡ err e) × (outcome s ≡ err e))
            ⊎ ((x : R) × (outcome s ≡ ok s.results)
                × (lookup i s.results ≡ some x)
                × (work i ≡ ok x))
      decide (some e) failed (j, below, w) = inl (e, j, below, w, ap outcome_of failed)
      decide none fine c =
          let (x, found, right) =
            found_result i s.results v.right_results (all_there (quiet fine)) in
          inr (x, ap outcome_of fine, found, right)
