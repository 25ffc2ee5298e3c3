-- ===== src/Dispatcher/Backoff.antt =====
-- The waits between attempts.
use native.Mathlib.Nat.{pow-suc}
use go_learning.Common.{ℕ, zero, suc, ◌+◌, ◌-◌, ◌*◌, ◌^◌, ◌%◌, ◌≤◌, ◌≡◌, refl, ap, ◌∙◌, arith}
use go_learning.Common.Int.{
  ℤ, pos, negsuc, mul64, mul64-pos, wrap64, wrap64_of_IsInt64, max_int64, word, ◌*ℤ◌,
}
use go_learning.Dispatcher.{backoff}

pow-pos : (k : ℕ) → 1 ≤ 2 ^ k
pow-pos zero = omega arith
pow-pos (suc k) = rw (pow-suc 2 k) (omega (arith, pow-pos k))

backoff_in_range :
    (b k : ℕ) → 1 ≤ b → b * 2 ^ k ≤ max_int64 → backoff (pos b) (suc k) ≡ pos (b * 2 ^ k)
unfolding backoff
backoff_in_range b k h l =
    let e : suc k - 1 ≡ k = omega arith in
    let small : 2 ^ k ≤ max_int64 = grind arith in
    rw e (rw (wrap64_of_IsInt64 (pos (2 ^ k)) (small, omega arith)) (mul64-pos b (2 ^ k) l))

-- The wait before the first retry is the base, and each later one is twice the one before, as long
-- as it fits a 64-bit duration.
pub backoff_doubles :
    (b k : ℕ)
    → 1 ≤ b
    → b * 2 ^ suc k ≤ max_int64
    → (backoff (pos b) 1 ≡ pos b)
      × (backoff (pos b) (suc k) ≡ pos (b * 2 ^ k))
      × (backoff (pos b) (suc (suc k)) ≡ pos (2 * (b * 2 ^ k)))
backoff_doubles b k h l =
    let twice : b * 2 ^ suc k ≡ 2 * (b * 2 ^ k) = rw (pow-suc 2 k) (omega arith) in
    let grows : 1 ≤ 2 ^ suc k = pow-pos (suc k) in
    let fits : b * 2 ^ 0 ≤ max_int64 = grind arith in
    (
      backoff_in_range b 0 h fits ∙ ap pos (omega arith),
      backoff_in_range b k h (omega arith),
      backoff_in_range b (suc k) h l ∙ ap pos twice,
    )

pow-word : (j : ℕ) → 2 ^ (64 + j) ≡ word * 2 ^ j
pow-word zero = refl
pow-word (suc j) =
    let e : 64 + suc j ≡ suc (64 + j) = omega arith in
    rw (e, pow-suc 2 (64 + j), pow-suc 2 j) (omega (arith, pow-word j))

shifted_out : (j : ℕ) → wrap64 (pos (2 ^ (64 + j))) ≡ pos 0
unfolding wrap64
shifted_out j = rw (pow-word j) (rw (multiple (2 ^ j)))
  where
    multiple : (x : ℕ) → word * x % word ≡ 0
    multiple x = omega arith

times_zero : (z : ℤ) → mul64 z (pos 0) ≡ pos 0
unfolding mul64 ◌*ℤ◌ wrap64
times_zero (pos n) = ground arith
times_zero (negsuc n) = ground arith

-- From the 65th retry on the shift has lost its only bit, and there is no wait at all.
pub backoff_vanishes : (base : ℤ) (j : ℕ) → backoff base (65 + j) ≡ pos 0
unfolding backoff
backoff_vanishes base j =
    let e : 65 + j - 1 ≡ 64 + j = omega arith in rw e (rw (shifted_out j) (times_zero base))
