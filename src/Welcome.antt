-- ===== src/Welcome.antt =====
-- m11-testing/solution-notify/notify.go. `quote` is the verb %q. What a sender answers at each
-- attempt and whether the context is done in the select after it are arguments.
pub mod Retrying
mod Tests
use go_learning.Common.{
  ℕ, zero, suc, List, [], ◌∷◌, ◌++◌, Option, none, some, Bool, not, Bytes, if◌then◌else◌,
}
use go_learning.Common.Int.{ℤ, pos, negsuc}
use go_learning.GoErrors.{str, Err, text, message}
use go_learning.GoStrings.{contains_byte}

pub record Customer : Type 0 where
  pub email : Bytes
  pub name : Bytes

pub record Message : Type 0 where
  pub to : Bytes
  pub body : Bytes

-- `send` is the sender that the notifier was made with.
unfoldable pub welcome : (Bytes → Bytes) → (Message → Option Err) → Customer → Option Err
welcome quote send c =
    if not (contains_byte b'@' c.email)
    then some (text (str "invalid email " ++ quote c.email))
    else send (record { to = c.email; body = str "Welcome to Pulse, " ++ (c.name ++ str "!") })

pub data Retried : Type 0 where
  returned : Option Err → Retried
  panicked : Retried

-- The end of the function: `err.Error()` on nil is the run-time panic.
unfoldable pub exhausted : Option Err → Retried
exhausted none = panicked
exhausted (some e) = returned (some (text (str "exhausted retries: " ++ message e)))

abbrev pub after_failure : Option Err → Retried → Retried
after_failure (some ended) rest = returned (some ended)
after_failure none rest = rest

abbrev pub after_send : Option Err → Option Err → Retried → Retried
after_send none over rest = returned none
after_send (some e) over rest = after_failure over rest

-- The loop from `attempt` on with `rounds` left; `last` is the variable `err`, and `done k` the error
-- of the context if the select after attempt `k` finds it done.
unfoldable pub retry : (ℕ → Option Err) → (ℕ → Option Err) → ℕ → ℕ → Option Err → Retried
unfolding exhausted
retry answers done zero attempt last = exhausted last
retry answers done (suc rounds) attempt last =
    let rest = retry answers done rounds (suc attempt) (answers attempt) in
    after_send (answers attempt) (done attempt) rest

abbrev pub rounds_of : ℤ → ℕ
rounds_of (pos n) = n
rounds_of (negsuc n) = 0

unfoldable pub send_with_retry : (ℕ → Option Err) → (ℕ → Option Err) → ℤ → Retried
unfolding retry
send_with_retry answers done max_attempts = retry answers done (rounds_of max_attempts) 0 none
