-- ===== src/Genx/Paging.antt =====
-- `Paginate`: the window that a page shows, what the metadata say of it, and what happens when the
-- products and sums of the 64-bit `int` wrap around.
use go_learning.Common.{
  ℕ, suc, zero, ◌+◌, ◌-◌, ◌*◌, ◌/◌, ◌≤◌, ◌<◌, List, [], ◌∷◌, none, some, length, take, drop, ltb,
  if◌then◌else◌, ◌≡◌, refl, arith, inl, inr, Bool-cases, le→leb, sym, ap, ◌∙◌, drop_all, take_all,
}
use go_learning.Common.Int.{
  ℤ, pos, negsuc, add64, mul64, quot, max_int64, word, add64-pos, sub64-pos, mul64-pos,
  wrap64_upper, *ℤ-pos,
}
use go_learning.Genx.{slice, at_least_one, at_most, page_of, paginate}

-- A page or size after the first tests: the value itself from 1 on, and the default below.
abbrev pub clamped : ℤ → ℕ → ℕ
clamped (pos zero) def = def
clamped (pos (suc n)) def = suc n
clamped (negsuc n) def = def

at_least_one-clamped : (z : ℤ) (def : ℕ) → at_least_one z (pos def) ≡ pos (clamped z def)
unfolding at_least_one
at_least_one-clamped (pos zero) def = ground arith
at_least_one-clamped (pos (suc n)) def = ground arith
at_least_one-clamped (negsuc n) def = ground arith

pub clamped-pos : (z : ℤ) (def : ℕ) → 1 ≤ def → 1 ≤ clamped z def
clamped-pos (pos zero) def h = h
clamped-pos (pos (suc n)) def h = omega arith
clamped-pos (negsuc n) def h = h

-- Pages of `size` that hold `n` items.
abbrev pub pages : ℕ → ℕ → ℕ
pages n size = (n + size - 1) / size

abbrev cap : ℕ → ℕ → ℕ
cap n bound = if ltb bound n then bound else n

at_most-pos : (n bound : ℕ) → at_most (pos n) (pos bound) ≡ pos (cap n bound)
unfolding at_most
at_most-pos n bound = ground arith

at_most_negative : (k n : ℕ) → at_most (negsuc k) (pos n) ≡ negsuc k
unfolding at_most
at_most_negative k n = ground arith

module _ {ℓ} {T : Type ℓ} where
  drop-take : (a s : ℕ) (xs : List T) → drop a (take (a + s) xs) ≡ take s (drop a xs)
  drop-take zero s xs = ap (λ k. take k xs) (omega arith)
  drop-take (suc a) s [] = let e : suc a + s ≡ suc (a + s) = omega arith in rw e (take-nil s)
    where
      take-nil : (s : ℕ) → [] ≡ take {A = T} s []
      take-nil zero = refl
      take-nil (suc s) = refl
  drop-take (suc a) s (x ∷ xs) =
      let e : suc a + s ≡ suc (a + s) = omega arith in rw e (drop-take a s xs)

  take-cap : (b : ℕ) (xs : List T) → take (cap b (length xs)) xs ≡ take b xs
  take-cap b xs = elim (Bool-cases (ltb (length xs) b)) [
    | inl over ↦
        rw over (take_all (length xs) xs (omega arith) ∙ sym (take_all b xs (ground arith)))
    | inr fits ↦ rw fits
  ]

  -- The slice between the two capped ends is the window at the first of them.
  window :
      (a s : ℕ) (xs : List T)
      → drop (cap a (length xs)) (take (cap (cap a (length xs) + s) (length xs)) xs)
        ≡ take s (drop a xs)
  window a s xs =
      rw (take-cap (cap a (length xs) + s) xs)
        (drop-take (cap a (length xs)) s xs ∙ ap (take s) (drop-cap a))
    where
      drop-cap : (a : ℕ) → drop (cap a (length xs)) xs ≡ drop a xs
      drop-cap a = elim (Bool-cases (ltb (length xs) a)) [
        | inl over ↦
            rw over (drop_all (length xs) xs (omega arith) ∙ sym (drop_all a xs (ground arith)))
        | inr fits ↦ rw fits
      ]

  slice_in_range :
      (a b : ℕ) (xs : List T)
      → a ≤ b
      → b ≤ length xs
      → slice (pos a) (pos b) xs ≡ some (drop a (take b xs))
  unfolding slice
  slice_in_range a b xs h k = rw (le→leb a b h) (rw (le→leb b (length xs) k))

  pub paginate-window :
      (items : List T) (page size : ℤ)
      → (clamped page 1 - 1) * clamped size 20 ≤ max_int64
      → length items + clamped size 20 ≤ max_int64
      → clamped page 1 ≤ max_int64
      → paginate items page size
        ≡ some (
            page_of
              (pos (clamped page 1))
              (pos (clamped size 20))
              (pos (length items))
              (pos (pages (length items) (clamped size 20)))
              (take (clamped size 20) (drop ((clamped page 1 - 1) * clamped size 20) items)))
  unfolding paginate quot
  paginate-window items page size h k l =
      let p = clamped page 1 in
      let s = clamped size 20 in
      let n = length items in
      let p_pos : 1 ≤ p = clamped-pos page 1 (omega arith) in
      let s_pos : 1 ≤ s = clamped-pos size 20 (omega arith) in
      let start = cap ((p - 1) * s) n in
      let start_le : start ≤ n = ground arith in
      rw (at_least_one-clamped page 1, at_least_one-clamped size 20)
        (rw (sub64-pos p 1 p_pos l, mul64-pos (p - 1) s h, at_most-pos ((p - 1) * s) n)
          (rw (add64-pos start s (omega arith), at_most-pos (start + s) n)
            (rw (add64-pos n s k, sub64-pos (n + s) 1 (omega arith) k)
              (rw (slice_in_range start (cap (start + s) n) items (ground arith) (ground arith))
                (rw (window ((p - 1) * s) s items))))))

  slice_negative : (k : ℕ) (b : ℤ) (xs : List T) → slice (negsuc k) b xs ≡ none
  unfolding slice
  slice_negative k (pos b) xs = refl
  slice_negative k (negsuc b) xs = refl

  -- A page whose offset (page - 1) * size lies between 2^63 and 2^64 makes `Paginate` panic, for
  -- every slice: the product wraps to a negative start.
  pub paginate_offset_overflow :
      (items : List T) (page size : ℤ)
      → clamped page 1 ≤ max_int64
      → max_int64 < (clamped page 1 - 1) * clamped size 20
      → (clamped page 1 - 1) * clamped size 20 < word
      → paginate items page size ≡ none
  unfolding paginate mul64
  paginate_offset_overflow items page size l h k =
      let p = clamped page 1 in
      let s = clamped size 20 in
      let p_pos : 1 ≤ p = clamped-pos page 1 (omega arith) in
      rw (at_least_one-clamped page 1, at_least_one-clamped size 20)
        (rw (sub64-pos p 1 p_pos l, *ℤ-pos (p - 1) s)
          (rw
            (
              wrap64_upper ((p - 1) * s) h k,
              at_most_negative (word - 1 - (p - 1) * s) (length items),
            )
            (rw (
              slice_negative (word - 1 - (p - 1) * s)
                (at_most (add64 (negsuc (word - 1 - (p - 1) * s)) (pos s)) (pos (length items)))
                items))))
