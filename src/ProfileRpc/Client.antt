-- ===== src/ProfileRpc/Client.antt =====
-- m05-grpc/solution-profile/profile.go: `Client`. `raw` is the generated stub called under the
-- client's deadline; it answers with the server's message or with a status.
use go_learning.Common.{◌*◌, none, some, Bool, Bytes, if◌then◌else◌, true, false}
use go_learning.GoErrors.{str, Err, sentinel, profile_not_found, wrapped, as_rpc, Result, ok, err}
use go_learning.GoRpc.{RpcCode, not_found, unknown}
use go_learning.ProfileRpc.Repo.{Profile}
use go_learning.ProfileRpc.Server.{ProtoProfile, second}

-- `status.Code` of an error that is not nil.
unfoldable pub status_code : Err → RpcCode
status_code e = elim (as_rpc e) [ none ↦ unknown | some c ↦ c ]

abbrev pub is_not_found : RpcCode → Bool
is_not_found not_found = true
is_not_found _ = false

abbrev pub translated : Result ProtoProfile → Result Profile
translated (ok p) = ok (record {
  customer_id = p.customer_id;
  traits = p.traits;
  updated_at = p.updated_at_unix * second;
})
translated (err e) =
    if is_not_found (status_code e)
    then err (sentinel profile_not_found)
    else err (wrapped (str "get profile: ") e)

unfoldable pub client_get : (Bytes → Result ProtoProfile) → Bytes → Result Profile
client_get raw id = translated (raw id)
