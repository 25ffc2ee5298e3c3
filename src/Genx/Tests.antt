-- ===== src/Genx/Tests.antt =====
-- m02-generics-and-idioms/solution-genx/genx.go: the theorems at concrete slices and sets.
use go_learning.Common.{ℕ, List, [], ◌∷◌, some, ◌≡◌, refl, arith, num_comparable}
use go_learning.Common.Int.{pos}
use go_learning.Common.GoMap.{IsMap, has}
use go_learning.Genx.{Set, page_of, paginate}
use go_learning.Genx.Paging.{paginate-window}

abbrev five : List ℕ
five = 10 ∷ 20 ∷ 30 ∷ 40 ∷ 50 ∷ []

paginate-window_example :
    paginate five (pos 2) (pos 2) ≡ some (page_of (pos 2) (pos 2) (pos 5) (pos 3) (30 ∷ 40 ∷ []))
paginate-window_example =
    paginate-window five (pos 2) (pos 2) (omega arith) (omega arith) (omega arith)

second_page :
    paginate five (pos 2) (pos 2) ≡ some (page_of (pos 2) (pos 2) (pos 5) (pos 3) (30 ∷ 40 ∷ []))
second_page = paginate-window_example

abbrev ages : List (ℕ × ℕ)
ages = (1, 30) ∷ (2, 40) ∷ []

abbrev odd : Set ℕ
odd = record { m = (1, tt) ∷ (3, tt) ∷ [] }

odd-IsMap : IsMap odd.m
unfolding has
odd-IsMap = (refl, (refl, tt))
