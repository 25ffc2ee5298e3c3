-- ===== src/Pulse/Itoa.antt =====
-- `itoa` prints as `strconv` does, and its buffer is large enough.
use go_learning.Common.{
  ℕ, zero, suc, ◌+◌, ◌*◌, ◌/◌, ◌%◌, ◌^◌, ◌<◌, ◌≤◌, [], ◌∷◌, ◌++◌, some, true, false, Bytes, ltb,
  ◌≡◌, refl, sym, ap, subst, ◌∙◌, inl, inr, arith, Bool-cases,
}
use mathlib.Core.List.{append_assoc, append-nil}
use native.Mathlib.Nat.{pow-suc}
use go_learning.Common.Int.{max_int64}
use go_learning.Decimal.{decimal, decimal_from}
use go_learning.GoErrors.{str}
use go_learning.Pulse.Customer.{itoa, itoa_from}

decimal_from_fuel : (f g n : ℕ) → n < f → n < g → decimal_from f n ≡ decimal_from g n
unfolding decimal_from
decimal_from_fuel zero g n h k = elim h [ ]
decimal_from_fuel (suc f) zero n h k = elim k [ ]
decimal_from_fuel (suc f) (suc g) n h k = elim (Bool-cases (ltb n 10)) [
  | inl small ↦ rw small
  | inr large ↦ rw large (
      ap (λ ds. ds ++ (48 + n % 10) ∷ [])
        (decimal_from_fuel f g (n / 10) (ground arith) (ground arith)))
]

decimal_step : (n : ℕ) → ltb n 10 ≡ false → decimal n ≡ decimal (n / 10) ++ (48 + n % 10) ∷ []
unfolding decimal decimal_from
decimal_step n large = rw large (
    ap (λ ds. ds ++ (48 + n % 10) ∷ [])
      (decimal_from_fuel n (suc (n / 10)) (n / 10) (ground arith) (omega arith)))

decimal_digit : (n : ℕ) → ltb n 10 ≡ true → decimal n ≡ (48 + n) ∷ []
unfolding decimal decimal_from
decimal_digit n small = rw small

itoa_from_zero : (room : ℕ) (written : Bytes) → itoa_from room 0 written ≡ some written
unfolding itoa_from
itoa_from_zero zero written = refl
itoa_from_zero (suc room) written = refl

itoa_from_step :
    (room n : ℕ) (written : Bytes)
    → 1 ≤ n
    → itoa_from (suc room) n written ≡ itoa_from room (n / 10) ((48 + n % 10) ∷ written)
unfolding itoa_from
itoa_from_step room n written h = ground arith

itoa_from-decimal :
    (room n : ℕ) (written : Bytes)
    → 1 ≤ n
    → n < 10 ^ room
    → itoa_from room n written ≡ some (decimal n ++ written)
itoa_from-decimal zero n written h lt = absurd (omega arith)
itoa_from-decimal (suc room) n written h lt =
    itoa_from_step room n written h ∙ elim (Bool-cases (ltb n 10)) [
      | inl small ↦
          let gone : n / 10 ≡ 0 = ground arith in
          let same : n % 10 ≡ n = ground arith in
          rw (decimal_digit n small, gone, same) (itoa_from_zero room ((48 + n) ∷ written))
      | inr large ↦
          let power : 10 ^ suc room ≡ 10 ^ room * 10 = pow-suc 10 room in
          let below : n < 10 ^ room * 10 = subst (λ p. n < p) power lt in
          rw (decimal_step n large) (
            itoa_from-decimal room (n / 10) ((48 + n % 10) ∷ written) (ground arith) (omega arith)
            ∙ ap some (sym (append_assoc (decimal (n / 10)) ((48 + n % 10) ∷ []) written)))
    ]

itoa-pos : (n : ℕ) → 1 ≤ n → itoa n ≡ itoa_from 20 n []
unfolding itoa
itoa-pos n h = ground arith

itoa-zero : itoa 0 ≡ some (str "0")
unfolding itoa
itoa-zero = refl

-- For every number of 64-bit `int` that is not negative, `itoa` prints it in decimal, as `%d` does,
-- and does not run out of its buffer of 20 bytes.
pub itoa-decimal : (n : ℕ) → n ≤ max_int64 → itoa n ≡ some (decimal n)
itoa-decimal zero h = itoa-zero ∙ ap some (sym (decimal_digit 0 refl))
itoa-decimal (suc n) h =
    itoa-pos (suc n) (omega arith)
    ∙ itoa_from-decimal 20 (suc n) [] (omega arith) (omega arith)
    ∙ ap some (append-nil (decimal (suc n)))
