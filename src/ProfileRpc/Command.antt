-- ===== src/ProfileRpc/Command.antt =====
-- m05-grpc/solution-cmd/server/main.go: `main`, with what `net.Listen` and `srv.Serve` answer.
use go_learning.Common.{ℕ, [], Option, none, some, Bytes, bytes_eq, if◌then◌else◌}
use go_learning.GoErrors.{str, Err}
use go_learning.ProfileRpc.Interceptor.{UnaryHandler, chain}

unfoldable pub grpc_token : (Bytes → Bytes) → Bytes
grpc_token env =
    if bytes_eq (env (str "GRPC_TOKEN")) [] then str "dev-token" else env (str "GRPC_TOKEN")

abbrev pub exit_of : Option Err → ℕ
exit_of none = 0
exit_of (some e) = 1

abbrev pub served : Option Err → Option Err → ℕ
served (some e) serve_error = 1
served none serve_error = exit_of serve_error

-- The handler that the server calls, and the exit code once it has ended.
unfoldable pub server_main :
    {W R : Type 0}
    → (Bytes → Bytes)
    → UnaryHandler W R
    → (listen_error serve_error : Option Err) → UnaryHandler W R × ℕ
server_main env handler listen_error serve_error =
    (chain (grpc_token env) handler, served listen_error serve_error)
