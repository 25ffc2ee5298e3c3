-- ===== src/GoErrors.antt =====
-- Go's `error` values as the program builds them, with `errors.Is`, `errors.As` and `errors.Join`
-- of the standard library over them.
pub mod Traverse
use Prim.Native.Char.{code}
use Prim.Native.String.{String}
use go_learning.GoRpc.{RpcCode, rpc_code_name}
use go_learning.Common.{ℕ, List, [], ◌∷◌, ◌++◌, Option, none, some, Bool, true, false, ◌||◌, Bytes}

-- The bytes of an ASCII literal.
abbrev pub str : String → Bytes
str String.[] = []
str (String.◌∷◌ c s) = code c ∷ str s

-- The package-level error variables, which `errors.Is` compares by identity.
pub data Sentinel : Type 0 where
  stats_empty customer_not_found customer_conflict profile_not_found : Sentinel
  no_rows no_documents canceled deadline_exceeded server_closed : Sentinel

abbrev pub sentinel_eq : Sentinel → Sentinel → Bool
sentinel_eq stats_empty stats_empty = true
sentinel_eq customer_not_found customer_not_found = true
sentinel_eq customer_conflict customer_conflict = true
sentinel_eq profile_not_found profile_not_found = true
sentinel_eq no_rows no_rows = true
sentinel_eq no_documents no_documents = true
sentinel_eq canceled canceled = true
sentinel_eq deadline_exceeded deadline_exceeded = true
sentinel_eq server_closed server_closed = true
sentinel_eq _ _ = false

pub sentinel_text : Sentinel → Bytes
sentinel_text stats_empty = str "stats: no values"
sentinel_text customer_not_found = str "customer: not found"
sentinel_text customer_conflict = str "customer: already exists"
sentinel_text profile_not_found = str "profile: not found"
sentinel_text no_rows = str "no rows in result set"
sentinel_text no_documents = str "mongo: no documents in result"
sentinel_text canceled = str "context canceled"
sentinel_text deadline_exceeded = str "context deadline exceeded"
sentinel_text server_closed = str "http: Server closed"

-- `text`: `errors.New` or `fmt.Errorf` with no `%w`, at a place that no variable names. `wrapped p
-- e`: `fmt.Errorf("p%w", e)`. `pg c t`: a `*pgconn.PgError` with its SQLSTATE and the text of its
-- `Error()`. `rpc`: a gRPC status with its code and message.
mutual
  pub data Err : Type 0 where
    sentinel : Sentinel → Err
    text : Bytes → Err
    validation : (field msg : Bytes) → Err
    coded : Bytes → Err → Err
    wrapped : Bytes → Err → Err
    join : Errs → Err
    pg : Bytes → Bytes → Err
    rpc : RpcCode → Bytes → Err

  pub data Errs : Type 0 where
    nil : Errs
    cons : Err → Errs → Errs

-- `errors.Is(err, target)` for a sentinel target.
unfoldable mutual
  pub is : Sentinel → Err → Bool
  is s (sentinel t) = sentinel_eq t s
  is s (coded c e) = is s e
  is s (wrapped p e) = is s e
  is s (join es) = is_any s es
  is s _ = false

  pub is_any : Sentinel → Errs → Bool
  is_any s nil = false
  is_any s (cons e es) = is s e || is_any s es

unfoldable pub or_else {ℓ} : {A : Type ℓ} → Option A → Option A → Option A
or_else none o = o
or_else (some a) o = some a

-- `errors.As(err, &ce)` for `*codedError`: the code of the first one in the chain.
unfoldable mutual
  pub as_coded : Err → Option Bytes
  as_coded (coded c e) = some c
  as_coded (wrapped p e) = as_coded e
  as_coded (join es) = as_coded_any es
  as_coded _ = none

  pub as_coded_any : Errs → Option Bytes
  as_coded_any nil = none
  as_coded_any (cons e es) = or_else (as_coded e) (as_coded_any es)

-- `errors.As(err, &ve)` for `*ValidationError`: its field.
unfoldable mutual
  pub as_validation : Err → Option Bytes
  as_validation (validation f m) = some f
  as_validation (coded c e) = as_validation e
  as_validation (wrapped p e) = as_validation e
  as_validation (join es) = as_validation_any es
  as_validation _ = none

  pub as_validation_any : Errs → Option Bytes
  as_validation_any nil = none
  as_validation_any (cons e es) = or_else (as_validation e) (as_validation_any es)

-- `errors.As(err, &pgErr)`: the SQLSTATE code.
unfoldable mutual
  pub as_pg : Err → Option Bytes
  as_pg (pg c m) = some c
  as_pg (coded c e) = as_pg e
  as_pg (wrapped p e) = as_pg e
  as_pg (join es) = as_pg_any es
  as_pg _ = none

  pub as_pg_any : Errs → Option Bytes
  as_pg_any nil = none
  as_pg_any (cons e es) = or_else (as_pg e) (as_pg_any es)

-- `errors.As(err, &gs)` for a gRPC status in the chain: its code.
unfoldable mutual
  pub as_rpc : Err → Option RpcCode
  as_rpc (rpc c m) = some c
  as_rpc (coded c e) = as_rpc e
  as_rpc (wrapped p e) = as_rpc e
  as_rpc (join es) = as_rpc_any es
  as_rpc _ = none

  pub as_rpc_any : Errs → Option RpcCode
  as_rpc_any nil = none
  as_rpc_any (cons e es) = or_else (as_rpc e) (as_rpc_any es)

-- `Error()`
unfoldable mutual
  pub message : Err → Bytes
  message (sentinel s) = sentinel_text s
  message (text t) = t
  message (validation f m) = str "validation: " ++ (f ++ (str ": " ++ m))
  message (coded c e) = c ++ (str ": " ++ message e)
  message (wrapped p e) = p ++ message e
  message (join es) = messages es
  message (pg c m) = m
  message (rpc c m) = str "rpc error: code = " ++ (rpc_code_name c ++ (str " desc = " ++ m))

  pub messages : Errs → Bytes
  messages nil = []
  messages (cons e nil) = message e
  messages (cons e (cons d es)) = message e ++ (str "\n" ++ messages (cons d es))

-- `errors.Join(a, b)`: nil operands are dropped, and with none left the result is nil.
unfoldable pub join₂ : Option Err → Option Err → Option Err
join₂ none none = none
join₂ none (some b) = some (join (cons b nil))
join₂ (some a) none = some (join (cons a nil))
join₂ (some a) (some b) = some (join (cons a (cons b nil)))

-- A pair of a value and an error, for code whose value beside an error is zero and not used.
pub data Result {ℓ} (A : Type ℓ) : Type ℓ where
  ok : A → Result A
  err : Err → Result A
