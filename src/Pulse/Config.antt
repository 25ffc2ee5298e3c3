-- ===== src/Pulse/Config.antt =====
-- m10-project-structure/pulse/internal/platform/config/config.go. `env` is `os.Getenv`, "" for a
-- variable that is not set.
use go_learning.Common.{[], Bytes, bytes_eq, if◌then◌else◌}
use go_learning.GoErrors.{str}

pub record Config : Type 0 where
  pub http_addr : Bytes
  pub grpc_addr : Bytes
  pub postgres_dsn : Bytes
  pub mongo_uri : Bytes
  pub nats_url : Bytes
  pub log_level : Bytes

unfoldable pub getenv : (Bytes → Bytes) → (key def : Bytes) → Bytes
getenv env key def = if bytes_eq (env key) [] then def else env key

unfoldable pub load : (Bytes → Bytes) → Config
load env = record {
  http_addr = getenv env (str "HTTP_ADDR") (str ":8080");
  grpc_addr = getenv env (str "GRPC_ADDR") (str ":9090");
  postgres_dsn = getenv env (str "PULSE_PG_DSN") [];
  mongo_uri = getenv env (str "PULSE_MONGO_URI") [];
  nats_url = getenv env (str "PULSE_NATS_URL") (str "nats://localhost:4222");
  log_level = getenv env (str "LOG_LEVEL") (str "info");
}
