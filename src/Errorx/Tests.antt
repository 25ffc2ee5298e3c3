-- ===== src/Errorx/Tests.antt =====
-- m01-foundations/solution-errorx/errorx.go: the theorems at concrete errors.
use go_learning.Common.{Option, some}
use go_learning.GoErrors.{Err, sentinel, customer_not_found, coded}
use go_learning.Errorx.{code_conflict}

abbrev tagged_conflict : Option Err
tagged_conflict = some (coded code_conflict (sentinel customer_not_found))
