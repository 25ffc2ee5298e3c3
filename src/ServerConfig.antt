-- ===== src/ServerConfig.antt =====
-- m02-generics-and-idioms/solution-config/config.go. Durations are in nanoseconds; the logger is a
-- name.
mod Tests
use go_learning.Common.{ℕ, ◌*◌, List, [], ◌∷◌, ◌++◌, Bytes, ◌≡◌, refl}

pub record ServerConfig : Type 0 where
  pub addr : Bytes
  pub read_timeout : ℕ
  pub write_timeout : ℕ
  pub shutdown_timeout : ℕ
  pub logger : Bytes

abbrev pub ConfigOption : Type 0
ConfigOption = ServerConfig → ServerConfig

unfoldable pub with_read_timeout : ℕ → ConfigOption
with_read_timeout d c = record c { read_timeout = d }

unfoldable pub with_write_timeout : ℕ → ConfigOption
with_write_timeout d c = record c { write_timeout = d }

unfoldable pub with_shutdown_timeout : ℕ → ConfigOption
with_shutdown_timeout d c = record c { shutdown_timeout = d }

unfoldable pub with_logger : Bytes → ConfigOption
with_logger l c = record c { logger = l }

abbrev pub second : ℕ
second = 1000000000

unfoldable pub apply : ServerConfig → List ConfigOption → ServerConfig
apply c [] = c
apply c (opt ∷ opts) = apply (opt c) opts

-- `default_logger` is `slog.Default()`.
unfoldable pub new_config : (default_logger addr : Bytes) → List ConfigOption → ServerConfig
unfolding apply
new_config default_logger addr opts =
    apply
      (record {
        addr = addr;
        read_timeout = 15 * second;
        write_timeout = 15 * second;
        shutdown_timeout = 30 * second;
        logger = default_logger;
      })
      opts

-- An option given last has the last word on its field, and touches no other.
apply-append :
    (c : ServerConfig) (opts more : List ConfigOption)
    → apply c (opts ++ more) ≡ apply (apply c opts) more
unfolding apply
apply-append c [] more = refl
apply-append c (opt ∷ opts) more = apply-append (opt c) opts more

-- After any options, a read timeout given last is the one that counts, and the other fields are what
-- the options before it made them.
pub new_config-with_read_timeout :
    (default_logger addr : Bytes) (opts : List ConfigOption) (d : ℕ)
    → new_config default_logger addr (opts ++ with_read_timeout d ∷ [])
      ≡ record (new_config default_logger addr opts) { read_timeout = d }
unfolding new_config apply with_read_timeout
new_config-with_read_timeout default_logger addr opts d =
    apply-append _ opts (with_read_timeout d ∷ [])
