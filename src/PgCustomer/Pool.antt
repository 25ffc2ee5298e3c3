-- ===== src/PgCustomer/Pool.antt =====
-- m06-postgresql/solution-db/db.go: the connection pool and the migrations. pgx, `database/sql` and
-- goose are a parameter, `Driver`; pools and handles are numbers, times are in nanoseconds.
use go_learning.Common.{ℕ, ◌*◌, List, ◌∷◌, Option, none, some, Bytes, ◌≡◌, refl}
use go_learning.GoErrors.{str, Err, wrapped, Result, ok, err}
use go_learning.Handles.{close_handle, NoLeak, close-open}

-- The fields that the program sets; `base` stands for the rest of the parsed configuration.
pub record PoolConfig : Type 0 where
  pub base : ℕ
  pub max_conns : ℕ
  pub max_conn_idle_time : ℕ
  pub health_check_period : ℕ

abbrev minute : ℕ
minute = 60000000000

pub record Driver : Type 0 where
  pub parse_config : Bytes → Result PoolConfig
  pub new_with_config : PoolConfig → Result ℕ
  pub ping : ℕ → Option Err
  pub open_sql : (driver dsn : Bytes) → Result ℕ
  pub set_dialect : Bytes → Option Err
  pub up : ℕ → (dir : Bytes) → Option Err

unfoldable pub pool_config : PoolConfig → PoolConfig
pool_config cfg = record {
  base = cfg.base;
  max_conns = 10;
  max_conn_idle_time = 5 * minute;
  health_check_period = minute;
}

abbrev pinged : List ℕ → ℕ → Option Err → Result ℕ × List ℕ
pinged open_ones pool none = (ok pool, open_ones)
pinged open_ones pool (some e) = (err (wrapped (str "ping: ") e), close_handle pool open_ones)

abbrev pooled : Driver → List ℕ → Result ℕ → Result ℕ × List ℕ
pooled driver open_ones (err e) = (err (wrapped (str "new pool: ") e), open_ones)
pooled driver open_ones (ok pool) = pinged (pool ∷ open_ones) pool (driver.ping pool)

abbrev parsed : Driver → List ℕ → Result PoolConfig → Result ℕ × List ℕ
parsed driver open_ones (err e) = (err (wrapped (str "parse dsn: ") e), open_ones)
parsed driver open_ones (ok cfg) =
    pooled driver open_ones (driver.new_with_config (pool_config cfg))

-- With the pools and handles that are open.
unfoldable pub new_pool : Driver → Bytes → List ℕ → Result ℕ × List ℕ
new_pool driver dsn open_ones = parsed driver open_ones (driver.parse_config dsn)

abbrev upped : Option Err → Option Err
upped none = none
upped (some e) = some (wrapped (str "goose up: ") e)

abbrev with_dialect : Driver → ℕ → Option Err → Option Err
with_dialect driver db (some e) = some e
with_dialect driver db none = upped (driver.up db (str "."))

-- The deferred `Close` runs on every return after the handle is there.
abbrev migrated : Driver → List ℕ → Result ℕ → Option Err × List ℕ
migrated driver open_ones (err e) = (some (wrapped (str "open sql: ") e), open_ones)
migrated driver open_ones (ok db) =
    (with_dialect driver db (driver.set_dialect (str "postgres")), close_handle db (db ∷ open_ones))

unfoldable pub migrate : Driver → Bytes → List ℕ → Option Err × List ℕ
migrate driver dsn open_ones = migrated driver open_ones (driver.open_sql (str "pgx") dsn)

-- A pool that is handed out was made from the parsed configuration with the program's limits, and it
-- has answered a ping.
abbrev pub Verified : Driver → Bytes → Result ℕ → Type 0
Verified driver dsn (err e) = Unit
Verified driver dsn (ok pool) =
    (cfg : PoolConfig) × (driver.parse_config dsn ≡ ok cfg)
    × (driver.new_with_config (pool_config cfg) ≡ ok pool)
    × (driver.ping pool ≡ none)

module _ (driver : Driver) (dsn : Bytes) (before : List ℕ) where
  pinged_lem :
      (cfg : PoolConfig) (pool : ℕ) (p : Option Err)
      → driver.parse_config dsn ≡ ok cfg
      → driver.new_with_config (pool_config cfg) ≡ ok pool
      → driver.ping pool ≡ p
      → let out = pinged (pool ∷ before) pool p in
        NoLeak (λ h. h) before out × Verified driver dsn out.0
  pinged_lem cfg pool none c n p = (refl, (cfg, c, n, p))
  pinged_lem cfg pool (some e) c n p = (close-open pool before, tt)

  pooled_lem :
      (cfg : PoolConfig) (r : Result ℕ)
      → driver.parse_config dsn ≡ ok cfg
      → driver.new_with_config (pool_config cfg) ≡ r
      → let out = pooled driver before r in NoLeak (λ h. h) before out × Verified driver dsn out.0
  pooled_lem cfg (err e) c n = (refl, tt)
  pooled_lem cfg (ok pool) c n = pinged_lem cfg pool (driver.ping pool) c n refl

  parsed_lem :
      (r : Result PoolConfig)
      → driver.parse_config dsn ≡ r
      → let out = parsed driver before r in NoLeak (λ h. h) before out × Verified driver dsn out.0
  parsed_lem (err e) c = (refl, tt)
  parsed_lem (ok cfg) c = pooled_lem cfg (driver.new_with_config (pool_config cfg)) c refl

  migrated_lem : (r : Result ℕ) → (migrated driver before r).1 ≡ before
  migrated_lem (err e) = refl
  migrated_lem (ok db) = close-open db before

  -- `NewPool` hands out a pool only if its configuration was parsed, the pool was made from it with
  -- the program's limits, and it answered a ping; then that pool is what is open in addition. Whatever
  -- of the three fails, nothing is left open. `Migrate` leaves nothing open, failed or not.
  pub new_pool-Verified :
      NoLeak (λ h. h) before (new_pool driver dsn before)
      × Verified driver dsn (new_pool driver dsn before).0
      × ((migrate driver dsn before).1 ≡ before)
  unfolding new_pool migrate
  new_pool-Verified =
      let (closed, verified) = parsed_lem (driver.parse_config dsn) refl in
      (closed, verified, migrated_lem (driver.open_sql (str "pgx") dsn))
