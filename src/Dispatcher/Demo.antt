-- ===== src/Dispatcher/Demo.antt =====
-- m03-concurrency/solution-cmd/demo/main.go: the flaky sender, the batch, and what the demo counts.
use go_learning.Common.{
  ℕ, ◌+◌, ◌%◌, [], ◌∷◌, ◌++◌, Option, none, some, Bool, true, false, Bytes, ltb, if◌then◌else◌, ◌≡◌,
  arith,
}
use go_learning.Common.Int.{pos}
use go_learning.Decimal.{decimal}
use go_learning.GoErrors.{str, text, Err}
use go_learning.Dispatcher.{
  Notification, Settings, new_dispatcher, apply_options, with_workers, with_max_attempts,
  with_backoff,
}
use go_learning.Dispatcher.Running.{Running, RunsTo}
use go_learning.Dispatcher.Running.Settled.{run_settles}

-- `simSender.Send`: `done` is `ctx.Err()` when the context ends during the latency, `unlucky` that
-- the random number is below 0.25.
unfoldable pub sim_send : (ended : Option Err) → (unlucky : Bool) → Option Err
sim_send (some err) unlucky = some err
sim_send none unlucky = if unlucky then some (text (str "simulated transient failure")) else none

-- The verb `%03d` for a number below 1000.
abbrev pub three_digits : ℕ → Bytes
three_digits n =
    if ltb n 10
    then str "00" ++ decimal n
    else if ltb n 100
    then str "0" ++ decimal n
    else decimal n

unfoldable pub demo_notification : ℕ → Notification
demo_notification i = record {
  id = str "n" ++ three_digits i;
  customer_id = str "c" ++ three_digits (i % 10);
  channel = str "email";
  body = str "Welcome to Pulse!";
}

unfoldable pub demo_settings : Settings
unfolding new_dispatcher apply_options with_workers with_max_attempts with_backoff
demo_settings =
    new_dispatcher
      (with_workers (pos 6) ∷ with_max_attempts (pos 4) ∷ with_backoff (pos 5000000) ∷ [])

abbrev pub demo_size : ℕ
demo_size = 50

-- Under a context that is not cancelled, the numbers of sent and dead-lettered notifications that the
-- demo prints add up to the batch, whatever the random numbers and the order of the steps.
pub demo_counts :
    (unlucky : ℕ → ℕ → Bool) (k : ℕ) (s : Running)
    → RunsTo demo_settings (λ i a. sim_send none (unlucky i a)) demo_size k s
    → s.closed ≡ true
    → s.shared.cancelled ≡ false
    → s.shared.metrics.sent + s.shared.metrics.dead_lettered ≡ demo_size
unfolding demo_settings
demo_counts unlucky k s r closed on =
    let (place, sent, dead, total) =
      run_settles demo_settings (λ i a. sim_send none (unlucky i a)) demo_size k s 0 r closed on
        (omega arith) (omega arith) in
    omega arith
