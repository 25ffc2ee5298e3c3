-- ===== src/Serving.antt =====
-- The life of an HTTP server: m10-project-structure/pulse/internal/platform/httpx/server.go with the
-- command cmd/customer-api that runs it, and m04-rest-api/solution-cmd/api/main.go. What a `select`
-- or a wait meets is a list of occurrences in their order; durations are in nanoseconds.
pub mod Laws
mod Tests
use go_learning.Common.{
  ℕ, ◌*◌, List, [], ◌∷◌, Option, none, some, Bool, true, false, Bytes, bytes_eq, if◌then◌else◌,
}
use go_learning.GoErrors.{str, Err, is, server_closed}
use go_learning.Pulse.Config.{load}

abbrev second : ℕ
second = 1000000000

-- The fields of `http.Server` that the program sets, other than the handler.
pub record HttpServer : Type 0 where
  pub addr : Bytes
  pub read_header_timeout : ℕ
  pub read_timeout : ℕ
  pub write_timeout : ℕ
  pub idle_timeout : ℕ

unfoldable pub new_server : Bytes → HttpServer
new_server addr = record {
  addr = addr;
  read_header_timeout = 5 * second;
  read_timeout = 15 * second;
  write_timeout = 15 * second;
  idle_timeout = 60 * second;
}

abbrev pub shutdown_timeout : ℕ
shutdown_timeout = 30 * second

-- `ListenAndServe` returns in its goroutine, or SIGINT or SIGTERM arrives.
pub data Occurrence : Type 0 where
  listen_returned : Option Err → Occurrence
  signalled : Occurrence

-- What the goroutine sends to `errCh`.
unfoldable pub listen_error : Option Err → Option Err
listen_error none = none
listen_error (some e) = if is server_closed e then none else some e

-- The `select` of `Run` goes on waiting when nothing was sent.
abbrev pub sent_or_wait : Option Err → Option (Option Err) → Option (Option Err)
sent_or_wait none rest = rest
sent_or_wait (some e) rest = some (some e)

-- `Run`: `shutdown` is what `Shutdown` answers, and `none` that it still waits.
unfoldable pub run : Option Err → List Occurrence → Option (Option Err)
run shutdown [] = none
run shutdown (signalled ∷ rest) = some shutdown
run shutdown (listen_returned r ∷ rest) =
    let waiting = run shutdown rest in sent_or_wait (listen_error r) waiting

abbrev exit_code : Option (Option Err) → Option ℕ
exit_code none = none
exit_code (some none) = some 0
exit_code (some (some e)) = some 1

-- `main` of cmd/customer-api: the server it makes, and the exit code once `Run` returns.
unfoldable pub customer_api : (Bytes → Bytes) → Option Err → List Occurrence → HttpServer × Option ℕ
customer_api env shutdown occurrences =
    (new_server (load env).http_addr, exit_code (run shutdown occurrences))

-- `main` of m04's solution-cmd/api: the token and the exit code. The goroutine exits by 1 when it
-- cannot serve; an error of `Shutdown` is only logged.
abbrev exit_or_wait : Option Err → Option ℕ → Option ℕ
exit_or_wait none rest = rest
exit_or_wait (some e) rest = some 1

unfoldable pub wait_for_end : List Occurrence → Option ℕ
wait_for_end [] = none
wait_for_end (signalled ∷ rest) = some 0
wait_for_end (listen_returned r ∷ rest) =
    let waiting = wait_for_end rest in exit_or_wait (listen_error r) waiting

unfoldable pub token_or_default : Bytes → Bytes
token_or_default token = if bytes_eq token [] then str "dev-token" else token

unfoldable pub api : (Bytes → Bytes) → List Occurrence → Bytes × HttpServer × Option ℕ
api env occurrences =
    (token_or_default (env (str "API_TOKEN")), new_server (str ":8080"), wait_for_end occurrences)
