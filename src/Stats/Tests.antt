-- ===== src/Stats/Tests.antt =====
-- m00-getting-started/03-stats: the theorem at concrete values.
use go_learning.Common.{List, [], ◌∷◌}
use go_learning.Common.Int.{ℤ, pos, negsuc}
use go_learning.Stats.{summarize}
use go_learning.Stats.Bounds.{Summarizes, summarize-Summarizes}

abbrev three : List ℤ
three = pos 4 ∷ negsuc 2 ∷ pos 9 ∷ []

summarize-Summarizes_example : Summarizes three (summarize three)
summarize-Summarizes_example = summarize-Summarizes three
