-- ===== src/Store/Tests.antt =====
-- m02-generics-and-idioms/solution-store/store.go: the theorems at concrete histories.
use go_learning.Common.{ℕ, List, [], ◌∷◌, none, ◌≡◌, num_comparable}
use go_learning.Common.GoMap.{IsMap}
use go_learning.Store.{Store, new_store, get}
use go_learning.Store.Laws.{Call, put_call, delete_call, run, history, get-run}

abbrev calls : List (Call ℕ ℕ)
calls = put_call 1 10 ∷ put_call 2 20 ∷ delete_call 1 ∷ put_call 2 21 ∷ []

get-run_example :
    ((k : ℕ) → get (run new_store calls) k ≡ history k none calls) × IsMap (run new_store calls).m
get-run_example = get-run calls

abbrev ones : List (Call ℕ ℕ)
ones = put_call 1 10 ∷ put_call 1 11 ∷ []

abbrev twos : List (Call ℕ ℕ)
twos = put_call 2 20 ∷ delete_call 2 ∷ []

abbrev both : List (Call ℕ ℕ)
both = put_call 1 10 ∷ put_call 2 20 ∷ put_call 1 11 ∷ delete_call 2 ∷ []

abbrev two : Store ℕ ℕ
two = record { m = (1, 10) ∷ (2, 20) ∷ [] }
