-- ===== src/Handles.antt =====
-- Connections that the program opens and closes, by number, and what it means that none is left open.
use go_learning.Common.{ℕ, List, [], ◌∷◌, nat_eq, ◌≡◌, arith, if◌then◌else◌}
use go_learning.GoErrors.{Result, ok, err}

-- `Close`
unfoldable pub close_handle : ℕ → List ℕ → List ℕ
close_handle h [] = []
close_handle h (j ∷ js) = if nat_eq j h then js else j ∷ close_handle h js

-- A call that succeeds has opened its connection and nothing else; one that fails has left nothing
-- open.
abbrev pub NoLeak : {A : Type 0} → (A → ℕ) → List ℕ → Result A × List ℕ → Type 0
NoLeak handle before (ok a, after) = after ≡ handle a ∷ before
NoLeak handle before (err e, after) = after ≡ before

pub close-open : (h : ℕ) (before : List ℕ) → close_handle h (h ∷ before) ≡ before
unfolding close_handle
close-open h before = ground arith
