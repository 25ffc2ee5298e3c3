-- ===== src/ProfileRpc/Interceptor.antt =====
-- m05-grpc/solution-interceptor/interceptor.go, and the chain of solution-cmd/server/main.go. A
-- handler takes what it may change, `W`, with the log. `vals` is `md.Get("authorization")`.
use go_learning.Common.{List, [], ◌∷◌, ◌++◌, Bytes, bytes_eq, if◌then◌else◌}
use go_learning.GoErrors.{str, Err, rpc, Result, ok, err}
use go_learning.GoRpc.{RpcCode, all_ok, unauthenticated, internal}
use go_learning.ProfileRpc.Client.{status_code}

pub data LogEntry : Type 0 where
  unary : (method : Bytes) → RpcCode → LogEntry
  panic_recovered : (method : Bytes) → LogEntry

pub record Call : Type 0 where
  pub method : Bytes
  pub vals : List Bytes

pub record World (W : Type 0) : Type 0 where
  pub state : W
  pub log : List LogEntry

-- How a handler ends: with its pair `(resp, err)`, or in a panic.
pub data Outcome (W R : Type 0) : Type 0 where
  returned : Result R → World W → Outcome W R
  panicked : World W → Outcome W R

abbrev pub UnaryHandler : Type 0 → Type 0 → Type 0
UnaryHandler W R = Call → World W → Outcome W R

abbrev pub invalid_token : Err
invalid_token = rpc unauthenticated (str "invalid token")

-- `status.Code(err)`, which is OK for nil.
abbrev pub code_of_result : {R : Type 0} → Result R → RpcCode
code_of_result (ok v) = all_ok
code_of_result (err e) = status_code e

module _ {W R : Type 0} where
  abbrev pub admit : Bytes → UnaryHandler W R → List Bytes → UnaryHandler W R
  admit want handler [] call w = returned (err invalid_token) w
  admit want handler (v ∷ vs) call w =
      if bytes_eq v want then handler call w else returned (err invalid_token) w

  unfoldable pub auth_unary : Bytes → UnaryHandler W R → UnaryHandler W R
  auth_unary token handler call w = admit (str "Bearer " ++ token) handler call.vals call w

  abbrev pub logged : Call → Outcome W R → Outcome W R
  logged call (panicked w) = panicked w
  logged call (returned out w) =
      returned out
        (record { state = w.state; log = w.log ++ unary call.method (code_of_result out) ∷ [] })

  unfoldable pub log_unary : UnaryHandler W R → UnaryHandler W R
  log_unary handler call w = logged call (handler call w)

  abbrev pub recovered : Call → Outcome W R → Outcome W R
  recovered call (returned out w) = returned out w
  recovered call (panicked w) =
      returned (err (rpc internal (str "internal error")))
        (record { state = w.state; log = w.log ++ panic_recovered call.method ∷ [] })

  unfoldable pub recover_unary : UnaryHandler W R → UnaryHandler W R
  recover_unary handler call w = recovered call (handler call w)

  -- `grpc.ChainUnaryInterceptor`: the first interceptor is the outermost.
  unfoldable pub chain : Bytes → UnaryHandler W R → UnaryHandler W R
  chain token handler = recover_unary (log_unary (auth_unary token handler))
