-- ===== src/Genx/Cover.antt =====
-- The pages of a slice, taken together and one after the other.
use native.Mathlib.Nat.{le-div_iff_mul-le}
use go_learning.Common.{
  ℕ, suc, zero, ◌+◌, ◌-◌, ◌*◌, ◌≤◌, ◌<◌, List, [], ◌∷◌, ◌++◌, Option, none, some, true, length,
  drop, ◌≡◌, refl, ◌↔◌, ◌≢◌, arith,
}
use go_learning.Common.Int.{ℤ, pos, max_int64, ltb_ℤ}
use go_learning.Genx.{Page, paginate}
use go_learning.Genx.Paging.{clamped, clamped-pos, pages, paginate-window}

lt-pages_iff : (p n s : ℕ) → 1 ≤ s → (p < pages n s) ↔ (p * s < n)
lt-pages_iff p n s h =
    let (to, from) = le-div_iff_mul-le {k = s} {x = suc p} {y = n + s - 1} h in
    (λ lt. omega (arith, to lt), λ lt. from (omega arith))

ltb_ℤ-pos_iff : (a b : ℕ) → (ltb_ℤ (pos a) (pos b) ≡ true) ↔ (a < b)
ltb_ℤ-pos_iff a b = ground arith

module _ {ℓ} {T : Type ℓ} where
  drop-ne-nil_iff : (n : ℕ) (xs : List T) → (n < length xs) ↔ (drop n xs ≢ [])
  drop-ne-nil_iff n [] = (λ lt. absurd (omega arith), λ ne. absurd (ne (nil n)))
    where
      nil : (n : ℕ) → drop {A = T} n [] ≡ []
      nil zero = refl
      nil (suc n) = refl
  drop-ne-nil_iff zero (x ∷ xs) = (λ lt e. cc, λ ne. omega arith)
  drop-ne-nil_iff (suc n) (x ∷ xs) =
      let (to, from) = drop-ne-nil_iff n xs in
      (λ lt. to (omega arith), λ ne. omega (arith, from ne))

  -- A page says that it has a next one exactly when some item stands behind its window (no product
  -- or sum of the function leaving the range of a 64-bit `int`).
  pub paginate-has_next :
      (items : List T) (page size : ℤ)
      → (clamped page 1 - 1) * clamped size 20 ≤ max_int64
      → length items + clamped size 20 ≤ max_int64
      → clamped page 1 ≤ max_int64
      → (r : Page T) → paginate items page size ≡ some r
      → (r.has_next ≡ true) ↔ (drop (clamped page 1 * clamped size 20) items ≢ [])
  paginate-has_next items page size h k l r e =
      let p = clamped page 1 in
      let s = clamped size 20 in
      let found : r.has_next ≡ ltb_ℤ (pos p) (pos (pages (length items) s)) =
        cc (paginate-window items page size h k l) in
      let (a, a') = ltb_ℤ-pos_iff p (pages (length items) s) in
      let (b, b') = lt-pages_iff p (length items) s (clamped-pos size 20 (omega arith)) in
      let (c, c') = drop-ne-nil_iff (p * s) items in
      rw found ((λ t. c (b (a t))), (λ ne. a' (b' (c' ne))))

  abbrev pub page_items : Option (Page T) → List T
  page_items none = []
  page_items (some r) = r.items

  -- The items of the pages 1 to `k`, as a client collects them.
  abbrev pub collect : List T → ℕ → ℕ → List T
  collect items size zero = []
  collect items size (suc k) =
      collect items size k ++ page_items (paginate items (pos (suc k)) (pos size))
