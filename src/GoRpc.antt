-- ===== src/GoRpc.antt =====
-- What the program uses of gRPC: `codes.Code`.
use Prim.Native.Char.{code}
use Prim.Native.String.{String}
use go_learning.Common.{[], ◌∷◌, Bytes}

pub data RpcCode : Type 0 where
  all_ok cancelled unknown invalid_argument over_deadline not_found already_exists : RpcCode
  permission_denied resource_exhausted failed_precondition aborted out_of_range : RpcCode
  unimplemented internal unavailable data_loss unauthenticated : RpcCode

abbrev ascii : String → Bytes
ascii String.[] = []
ascii (String.◌∷◌ c s) = code c ∷ ascii s

-- `Code.String()`
pub rpc_code_name : RpcCode → Bytes
rpc_code_name all_ok = ascii "OK"
rpc_code_name cancelled = ascii "Canceled"
rpc_code_name unknown = ascii "Unknown"
rpc_code_name invalid_argument = ascii "InvalidArgument"
rpc_code_name over_deadline = ascii "DeadlineExceeded"
rpc_code_name not_found = ascii "NotFound"
rpc_code_name already_exists = ascii "AlreadyExists"
rpc_code_name permission_denied = ascii "PermissionDenied"
rpc_code_name resource_exhausted = ascii "ResourceExhausted"
rpc_code_name failed_precondition = ascii "FailedPrecondition"
rpc_code_name aborted = ascii "Aborted"
rpc_code_name out_of_range = ascii "OutOfRange"
rpc_code_name unimplemented = ascii "Unimplemented"
rpc_code_name internal = ascii "Internal"
rpc_code_name unavailable = ascii "Unavailable"
rpc_code_name data_loss = ascii "DataLoss"
rpc_code_name unauthenticated = ascii "Unauthenticated"
