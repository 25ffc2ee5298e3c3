-- ===== src/Pipeline/Accounting.antt =====
-- Each item that was fed is in one place.
use go_learning.Common.{
  ℕ, suc, ◌+◌, List, [], ◌∷◌, ◌++◌, nat_eq, ltb, num_comparable, ◌≡◌, refl, ap, ◌∙◌, arith,
  if◌then◌else◌,
}
use go_learning.GoErrors.{Result}
use go_learning.Pipeline.{State, Step, feed, all_fed, stop_feeding, succeed, fail, receive, give_up}

-- How often a number stands in a list, and as an index in a list of results.
abbrev pub times : ℕ → List ℕ → ℕ
times j [] = 0
times j (i ∷ is) = if nat_eq i j then suc (times j is) else times j is

abbrev pub results_for : {R : Type 0} → ℕ → List (ℕ × R) → ℕ
results_for j [] = 0
results_for j ((i, v) ∷ ps) = if nat_eq i j then suc (results_for j ps) else results_for j ps

pub times-append :
    (j : ℕ) (xs : List ℕ) (i : ℕ) (ys : List ℕ) → times j (xs ++ i ∷ ys) ≡ times j (i ∷ (xs ++ ys))
times-append j [] i ys = refl
times-append j (x ∷ xs) i ys = ground (arith, times-append j xs i ys)

module _ {R : Type 0} where
  pub results_for-append :
      (j : ℕ) (xs : List (ℕ × R)) (i : ℕ) (v : R) (ys : List (ℕ × R))
      → results_for j (xs ++ (i, v) ∷ ys) ≡ results_for j ((i, v) ∷ (xs ++ ys))
  results_for-append j [] i v ys = refl
  results_for-append j ((x, w) ∷ xs) i v ys = ground (arith, results_for-append j xs i v ys)

  -- The places of an item.
  abbrev pub places : ℕ → State R → ℕ
  places j s = times j s.busy + (results_for j s.ready + (results_for j s.results + times j s.lost))

module _ {R : Type 0} (work : ℕ → Result R) (n workers : ℕ) where
  abbrev pub Accounted : State R → Type 0
  Accounted s = (j : ℕ) → places j s ≡ (if ltb j s.fed then 1 else 0)

  pub Step-Accounted : {s t : State R} → Step work n workers s t → Accounted s → Accounted t
  Step-Accounted {s} (feed lt on free) h j = ground (arith, h j)
  Step-Accounted {s} (all_fed on e) h j = h j
  Step-Accounted {s} (stop_feeding on c) h j = h j
  Step-Accounted {s} (succeed xs ys i v e w) h j =
      let at : times j s.busy ≡ times j (i ∷ (xs ++ ys)) =
        ap (times j) e ∙ times-append j xs i ys in
      ground (arith, h j)
  Step-Accounted {s} (fail xs ys i x e w) h j =
      let at : times j s.busy ≡ times j (i ∷ (xs ++ ys)) =
        ap (times j) e ∙ times-append j xs i ys in
      ground (arith, h j)
  Step-Accounted {s} (receive xs ys i v e) h j =
      let at : results_for j s.ready ≡ results_for j ((i, v) ∷ (xs ++ ys)) =
        ap (results_for j) e ∙ results_for-append j xs i v ys in
      ground (arith, h j)
  Step-Accounted {s} (give_up xs ys i v c e) h j =
      let at : results_for j s.ready ≡ results_for j ((i, v) ∷ (xs ++ ys)) =
        ap (results_for j) e ∙ results_for-append j xs i v ys in
      ground (arith, h j)
