-- ===== src/Pipeline/Ending.antt =====
-- Every schedule of `Run` ends.
use go_learning.Common.{
  ℕ, suc, ◌+◌, ◌-◌, ◌*◌, ◌<◌, ◌≤◌, List, [], ◌∷◌, ◌++◌, true, false, Bool, length, length-append,
  ◌≡◌, ◌⊎◌, refl, ap, inl, inr, arith, Bool-cases, if◌then◌else◌,
}
use go_learning.Common.Int.{ℤ, pos, negsuc}
use go_learning.GoErrors.{Result, ok, err}
use go_learning.Pipeline.{
  at_least_one_worker, goroutines, State, start, Step, feed, all_fed, stop_feeding, succeed, fail,
  receive, give_up, cancel_parent, Reaches, started, next, IsFinished,
}
use go_learning.Pipeline.Kept.{Inv, Reaches-Inv}

goroutines-pos : (w : ℤ) → 1 ≤ goroutines w
unfolding goroutines at_least_one_worker
goroutines-pos (pos w) = ground arith
goroutines-pos (negsuc w) = ground arith

abbrev pub left_if : Bool → ℕ
left_if b = if b then 0 else 1

nat_cases : (a b : ℕ) → a ≤ b → (a ≡ b) ⊎ (a < b)
nat_cases a b le = ground arith

length-split :
    {A : Type 0} (zs xs : List A) (x : A) (ys : List A)
    → zs ≡ xs ++ x ∷ ys
    → length zs ≡ suc (length (xs ++ ys))
length-split zs xs x ys e =
    let one = length-append xs (x ∷ ys) in
    let two = length-append xs ys in let all = ap length e in omega arith

module _ {R : Type 0} (work : ℕ → Result R) (n : ℕ) (w : ℤ) where
  -- The runs of `k` steps, of which that of a caller who cancels its context is one.
  pub data Runs : ℕ → State R → Type 0 where
    begin : Runs 0 start
    go : {k : ℕ} {s t : State R} → Runs k s → Step work n (goroutines w) s t → Runs (suc k) t
    cancelled :
        {k : ℕ} {s : State R}
        → Runs k s
        → s.parent ≡ false
        → Runs (suc k) (record s { cancelled = true; parent = true })

  Runs-Reaches : {k : ℕ} {s : State R} → Runs k s → Reaches work n (goroutines w) s
  Runs-Reaches begin = started
  Runs-Reaches (go r step) = next (Runs-Reaches r) step
  Runs-Reaches (cancelled r on) = cancel_parent (Runs-Reaches r) on

  -- What is left to do: at most three steps for an item.
  abbrev pub left : State R → ℕ
  left s =
      3 * (n - s.fed)
      + (2 * length s.busy + (length s.ready + (left_if s.closed + left_if s.parent)))

  Step-less : {s t : State R} → Step work n (goroutines w) s t → suc (left t) ≤ left s
  Step-less {s} (feed lt on free) = omega (arith, lt)
  Step-less {s} (all_fed on e) = let c = ap left_if on in omega arith
  Step-less {s} (stop_feeding on c) = let c = ap left_if on in omega arith
  Step-less {s} (succeed xs ys i v e ok_i) = let l = length-split s.busy xs i ys e in omega arith
  Step-less {s} (fail xs ys i x e err_i) = let l = length-split s.busy xs i ys e in omega arith
  Step-less {s} (receive xs ys i v e) = let l = length-split s.ready xs (i, v) ys e in omega arith
  Step-less {s} (give_up xs ys i v c e) = let l = length-split s.ready xs (i, v) ys e in omega arith

  Runs-left : {k : ℕ} {s : State R} → Runs k s → k + left s ≤ 3 * n + 2
  Runs-left begin = omega arith
  Runs-left (go r step) = omega (arith, Runs-left r, Step-less step)
  Runs-left (cancelled r on) = let c = ap left_if on in omega (arith, Runs-left r)

  abbrev pub CanStep : State R → Type 0
  CanStep s = (t : State R) × Step work n (goroutines w) s t

  work_on : (s : State R) (i : ℕ) (is : List ℕ) → s.busy ≡ i ∷ is → CanStep s
  work_on s i is e = done_by (work i) refl
    where
      done_by : (r : Result R) → work i ≡ r → CanStep s
      done_by (ok v) ok_i = (_, succeed {s = s} [] is i v e ok_i)
      done_by (err x) err_i = (_, fail {s = s} [] is i x e err_i)

  idle_feeder :
      (s : State R)
      → Inv work n (goroutines w) s
      → s.busy ≡ []
      → s.ready ≡ []
      → s.closed ≡ false
      → CanStep s
  idle_feeder s v idle empty on = elim (Bool-cases s.cancelled) [
    | inl c ↦ (_, stop_feeding {s = s} on c)
    | inr c ↦
        let none_lost : s.lost ≡ [] = elim v.whole [ inl e ↦ e | inr gone ↦ absurd (cc) ] in
        let b = ap length idle in
        let q = ap length empty in
        let l = ap length none_lost in
        let free = goroutines-pos w in
        elim (nat_cases s.fed n v.fed_le) [
          | inl e ↦ (_, all_fed {s = s} on e)
          | inr lt ↦ (_, feed {s = s} lt on (omega arith))
        ]
  ]

  Inv-progress : (s : State R) → Inv work n (goroutines w) s → IsFinished s ⊎ CanStep s
  Inv-progress s v = by_busy s.busy refl
    where
      by_closed : s.busy ≡ [] → s.ready ≡ [] → IsFinished s ⊎ CanStep s
      by_closed idle empty = elim (Bool-cases s.closed) [
        | inl c ↦ inl (c, idle, empty)
        | inr on ↦ inr (idle_feeder s v idle empty on)
      ]

      by_ready : s.busy ≡ [] → (rs : List (ℕ × R)) → s.ready ≡ rs → IsFinished s ⊎ CanStep s
      by_ready idle [] empty = by_closed idle empty
      by_ready idle ((i, x) ∷ rs) e = inr (_, receive {s = s} [] rs i x e)

      by_busy : (is : List ℕ) → s.busy ≡ is → IsFinished s ⊎ CanStep s
      by_busy [] idle = by_ready idle s.ready refl
      by_busy (i ∷ is) e = inr (work_on s i is e)

  -- For any number of workers that the caller asks for, `Run` ends: a schedule of feeder, workers,
  -- receiver and caller has at most three steps for each item and two more, and as long as not every
  -- goroutine has returned, one of them can take a step, whether the caller cancels its context or
  -- not, so that none waits for ever. `work` is taken to return.
  pub run_ends :
      (k : ℕ) (s : State R)
      → Runs k s
      → (k ≤ 3 * n + 2) × (IsFinished s ⊎ ((t : State R) × Step work n (goroutines w) s t))
  run_ends k s r = (
    omega (arith, Runs-left r),
    Inv-progress s (Reaches-Inv work n (goroutines w) (Runs-Reaches r)),
  )
