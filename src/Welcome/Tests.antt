-- ===== src/Welcome/Tests.antt =====
-- m11-testing/solution-notify/notify.go: the theorem at a concrete sender.
use go_learning.Common.{ℕ, Option, none, some, ltb, if◌then◌else◌, ◌≡◌}
use go_learning.Common.Int.{pos, negsuc}
use go_learning.GoErrors.{str, Err, text}
use go_learning.Welcome.{panicked, send_with_retry}
use go_learning.Welcome.Retrying.{RetryEnds, send_with_retry-RetryEnds}

abbrev third_works : ℕ → Option Err
third_works k = if ltb k 2 then some (text (str "busy")) else none

abbrev never : ℕ → Option Err
never k = none

send_with_retry-RetryEnds_example :
    RetryEnds third_works never 3 0 none (send_with_retry third_works never (pos 3))
    × ((n : ℕ) → (send_with_retry third_works never (negsuc n) ≡ panicked))
    × (send_with_retry third_works never (pos 0) ≡ panicked)
send_with_retry-RetryEnds_example = send_with_retry-RetryEnds third_works never (pos 3)
