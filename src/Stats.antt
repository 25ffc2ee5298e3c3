-- ===== src/Stats.antt =====
-- m00-getting-started/03-stats/stats/stats.go.
pub mod Bounds
mod Tests
use go_learning.Common.{List, [], ◌∷◌, length, if◌then◌else◌}
use go_learning.Common.Int.{ℤ, pos, ltb_ℤ, add64}
use go_learning.GoErrors.{sentinel, stats_empty, Result, ok, err}

pub record Summary : Type 0 where
  pub count : ℤ
  pub sum : ℤ
  pub min : ℤ
  pub max : ℤ

-- One turn of the loop.
abbrev pub update : Summary → ℤ → Summary
update s x = record {
  count = s.count;
  sum = add64 s.sum x;
  min = if ltb_ℤ x s.min then x else s.min;
  max = if ltb_ℤ s.max x then x else s.max;
}

unfoldable pub summarize_from : Summary → List ℤ → Summary
summarize_from s [] = s
summarize_from s (x ∷ xs) = summarize_from (update s x) xs

unfoldable pub summarize : List ℤ → Result Summary
unfolding summarize_from
summarize [] = err (sentinel stats_empty)
summarize (x ∷ xs) = ok (
    summarize_from (record { count = pos (length (x ∷ xs)); sum = pos 0; min = x; max = x })
      (x ∷ xs))
