-- ===== src/Dispatcher.antt =====
-- m03-concurrency/solution-dispatcher/dispatcher.go: the notification dispatcher.
-- What happens around one call of `process` is in its `Course`: the answer of each `Send` and which
-- case each `select` takes. The counters are kept as the 64-bit patterns of `atomic.Int64`.
pub mod Ends
pub mod Laws
pub mod Backoff
pub mod Running
pub mod Demo
mod Tests
use go_learning.Common.{
  ℕ, zero, suc, ◌+◌, ◌-◌, ◌^◌, ◌%◌, List, [], ◌∷◌, ◌++◌, Option, none, some, Bool, true, false,
  Bytes, if◌then◌else◌,
}
use go_learning.Common.Int.{ℤ, pos, negsuc, mul64, wrap64, word}
use go_learning.GoErrors.{Err}

pub record Notification : Type 0 where
  pub id : Bytes
  pub customer_id : Bytes
  pub channel : Bytes
  pub body : Bytes

pub record Metrics : Type 0 where
  pub sent : ℕ
  pub failed : ℕ
  pub dead_lettered : ℕ

-- The fields that options set; durations are in nanoseconds.
pub record Settings : Type 0 where
  pub workers : ℤ
  pub max_attempts : ℤ
  pub base_backoff : ℤ

abbrev pub DispatcherOption : Type 0
DispatcherOption = Settings → Settings

unfoldable pub with_workers : ℤ → DispatcherOption
with_workers n d = record d { workers = n }

unfoldable pub with_max_attempts : ℤ → DispatcherOption
with_max_attempts n d = record d { max_attempts = n }

unfoldable pub with_backoff : ℤ → DispatcherOption
with_backoff b d = record d { base_backoff = b }

pub apply_options : Settings → List DispatcherOption → Settings
apply_options d [] = d
apply_options d (opt ∷ opts) = apply_options (opt d) opts

unfoldable pub new_dispatcher : List DispatcherOption → Settings
unfolding apply_options
new_dispatcher opts =
    apply_options (record { workers = pos 4; max_attempts = pos 3; base_backoff = pos 10000000 })
      opts

-- The counters, the dead-letter channel with all that ever went into it, and the times waited.
pub record State : Type 0 where
  pub metrics : Metrics
  pub dead : List Notification
  pub waits : List ℤ

-- `answers k`: what `Send` returns at attempt `k`. `cancelled k`: the select before attempt `k`
-- takes `ctx.Done()`. `dropped`: so does the select that offers the notification to the channel.
pub record Course : Type 0 where
  pub answers : ℕ → Option Err
  pub cancelled : ℕ → Bool
  pub dropped : Bool

-- `Add(1)`
abbrev pub bump : ℕ → ℕ
bump n = (n + 1) % word

-- `baseBackoff * (1 << (attempt - 1))`, on a 64-bit `time.Duration`.
unfoldable pub backoff : ℤ → ℕ → ℤ
backoff base attempt = mul64 base (wrap64 (pos (2 ^ (attempt - 1))))

abbrev pub count_sent : State → State
count_sent s = record s {
  metrics = record {
    sent = bump s.metrics.sent;
    failed = s.metrics.failed;
    dead_lettered = s.metrics.dead_lettered;
  };
}

abbrev pub count_failed : State → State
count_failed s = record s {
  metrics = record {
    sent = s.metrics.sent;
    failed = bump s.metrics.failed;
    dead_lettered = s.metrics.dead_lettered;
  };
}

abbrev pub count_dead : State → State
count_dead s = record s {
  metrics = record {
    sent = s.metrics.sent;
    failed = s.metrics.failed;
    dead_lettered = bump s.metrics.dead_lettered;
  };
}

-- After the loop.
unfoldable pub dead_letter : Course → Notification → State → State
dead_letter c n s =
    if c.dropped then count_dead s else record (count_dead s) { dead = s.dead ++ n ∷ [] }

-- One send, with `next` for the rounds that follow a failure.
abbrev pub sent_or : State → Option Err → State → State
sent_or s none next = count_sent s
sent_or s (some err) next = next

-- The wait before an attempt that is not the first.
abbrev pub wait_before : ℤ → ℕ → State → State
wait_before base zero s = s
wait_before base (suc k) s = record s { waits = s.waits ++ backoff base (suc k) ∷ [] }

-- The select of that wait.
abbrev pub stopped : Course → ℕ → Bool
stopped c zero = false
stopped c (suc k) = c.cancelled (suc k)

-- The loop of `process`, from `attempt` on, with `rounds` attempts left.
unfoldable pub attempts : ℤ → Course → Notification → ℕ → ℕ → State → State
attempts base c n zero attempt s = dead_letter c n s
attempts base c n (suc rounds) attempt s =
    let s' = wait_before base attempt s in
    let next = attempts base c n rounds (suc attempt) (count_failed s') in
    let tried = sent_or s' (c.answers attempt) next in if stopped c attempt then s else tried

-- How often `for attempt := 0; attempt < maxAttempts` runs.
abbrev pub rounds_of : ℤ → ℕ
rounds_of (pos n) = n
rounds_of (negsuc n) = 0

unfoldable pub process : Settings → Course → Notification → State → State
unfolding attempts
process d c n s = attempts d.base_backoff c n (rounds_of d.max_attempts) 0 s

-- What a worker's `select` takes: the end by `ctx.Done()` or by the closed channel, or a
-- notification with the course of its processing.
pub data Pick : Type 0 where
  stop : Pick
  take_one : Course → Notification → Pick

unfoldable pub worker : Settings → List Pick → State → State
worker d [] s = s
worker d (stop ∷ picks) s = s
worker d (take_one c n ∷ picks) s = worker d picks (process d c n s)
