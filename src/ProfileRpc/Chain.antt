-- ===== src/ProfileRpc/Chain.antt =====
-- What the chain of interceptors does around any handler.
use go_learning.Common.{
  List, [], ◌∷◌, ◌++◌, Bytes, bytes_eq, bytes_eq_iff, bytes_eq_refl, ◌≡◌, ◌≢◌, ◌⊎◌, refl, ap, ◌∙◌,
  inl, inr, Bool-cases, if◌then◌else◌,
}
use go_learning.GoErrors.{str, rpc, err, as_rpc}
use go_learning.GoRpc.{unauthenticated, internal}
use go_learning.ProfileRpc.Client.{status_code}
use go_learning.ProfileRpc.Interceptor.{
  unary, panic_recovered, Call, World, Outcome, returned, panicked, UnaryHandler, invalid_token,
  admit, auth_unary, code_of_result, log_unary, recover_unary, chain,
}

-- What a caller sees when the handler ended in this way.
abbrev pub Surfaces : {W R : Type 0} → Call → Outcome W R → Outcome W R → Type 0
Surfaces call (returned out w) seen =
    seen
    ≡ returned out
        (record { state = w.state; log = w.log ++ unary call.method (code_of_result out) ∷ [] })
Surfaces call (panicked w) seen =
    seen
    ≡ returned (err (rpc internal (str "internal error")))
        (record { state = w.state; log = w.log ++ panic_recovered call.method ∷ [] })

module _ {W R : Type 0} (token : Bytes) (handler : UnaryHandler W R) where
  surfaces :
      (call : Call) (w : World W) (out : Outcome W R)
      → auth_unary token handler call w ≡ out
      → Surfaces call out (chain token handler call w)
  unfolding chain recover_unary log_unary
  surfaces call w (returned out w') e = rw e refl
  surfaces call w (panicked w') e = rw e refl

  -- The caller whose first "authorization" value is "Bearer " and the token reaches the handler; what
  -- it returns goes back with one log record of its code, and a panic becomes "internal error" with
  -- one record of the panic.
  pub chain_admits :
      (call : Call) (w : World W) (rest : List Bytes)
      → call.vals ≡ (str "Bearer " ++ token) ∷ rest
      → Surfaces call (handler call w) (chain token handler call w)
  unfolding auth_unary
  chain_admits call w rest e = surfaces call w (handler call w) (
      ap (λ vs. admit (str "Bearer " ++ token) handler vs call w) e
      ∙ ap (λ b. if b then handler call w else returned (err invalid_token) w)
          (bytes_eq_refl (str "Bearer " ++ token)))

  -- A call through the interceptors whose metadata has no authorization value, or a first one other
  -- than "Bearer " and the server's token, gets Unauthenticated: the handler does not run, the state
  -- is as before, and one log entry has the method and that code.
  pub chain_denies :
      (call : Call) (w : World W)
      → ((call.vals ≡ [])
          ⊎ ((v : Bytes) × (rest : List Bytes) × (call.vals ≡ v ∷ rest)
              × (v ≢ str "Bearer " ++ token)))
      → chain token handler call w
        ≡ returned
            (err invalid_token)
            (record { state = w.state; log = w.log ++ unary call.method unauthenticated ∷ [] })
  unfolding auth_unary status_code as_rpc
  chain_denies call w (inl none_there) =
      surfaces call w (returned (err invalid_token) w)
        (ap (λ vs. admit (str "Bearer " ++ token) handler vs call w) none_there)
  chain_denies call w (inr (v, rest, e, other)) =
      elim (Bool-cases (bytes_eq v (str "Bearer " ++ token))) [
        | inl same ↦ absurd (other ((bytes_eq_iff v (str "Bearer " ++ token)).0 same))
        | inr differs ↦ surfaces call w (returned (err invalid_token) w) (
            ap (λ vs. admit (str "Bearer " ++ token) handler vs call w) e
            ∙ ap (λ b. if b then handler call w else returned (err invalid_token) w) differs)
      ]
