-- ===== src/Obs.antt =====
-- m13-observability/solution-obs/obs.go: the level of `NewLogger`, `LoggerFrom`, and `Instrument`
-- with its recorder. Prometheus and OpenTelemetry are outside: a counter or histogram is a function
-- of its label values, the number of calls, and a request carries the trace id its span got, if
-- any.
pub mod Counting
pub mod Setup
mod Tests
use go_learning.Common.{
  ℕ, suc, List, [], ◌∷◌, ◌++◌, Option, none, some, Bool, ◌&&◌, Bytes, bytes_eq, string_comparable,
  if◌then◌else◌,
}
use go_learning.Decimal.{decimal}
use go_learning.GoErrors.{str}
use go_learning.GoHttp.{status_ok}

pub data Level : Type 0 where
  debug_level info_level warn_level error_level : Level

unfoldable pub level_of : Bytes → Level
level_of level =
    if bytes_eq level (str "debug")
    then debug_level
    else if bytes_eq level (str "warn")
    then warn_level
    else if bytes_eq level (str "error")
    then error_level
    else info_level

-- A logger, by the trace id that `With` gave it.
abbrev pub Logger : Type 0
Logger = Option Bytes

abbrev pub default_logger : Logger
default_logger = none

-- The logger in the context, or the default one.
unfoldable pub logger_from : Option Logger → Logger
logger_from none = default_logger
logger_from (some l) = l

pub record LogEntry : Type 0 where
  pub trace_id : Logger
  pub method : Bytes
  pub route : Bytes
  pub status : ℕ

pub record World : Type 0 where
  pub http_requests : (method route status : Bytes) → ℕ
  pub http_duration : (method route : Bytes) → ℕ
  pub log : List LogEntry
  pub recorded : ℕ
  pub sent : Option ℕ

pub record Request : Type 0 where
  pub method : Bytes
  pub trace_id : Option Bytes
  pub logger : Option Logger

pub data Outcome : Type 0 where
  returned : World → Outcome
  panicked : World → Outcome

abbrev first_status : Option ℕ → ℕ → ℕ
first_status none code = code
first_status (some s) code = s

-- `statusRecorder.WriteHeader`
unfoldable pub record_header : ℕ → World → World
record_header code w = record w { recorded = code; sent = some (first_status w.sent code) }

-- One more where a label set is the given one: `WithLabelValues(…).Inc()` and `….Observe(…)`.
abbrev pub bumped : Bool → ℕ → ℕ
bumped here n = if here then suc n else n

abbrev pub observed : Bytes → Request → Logger → Outcome → Outcome
observed route r l (panicked w) = panicked w
observed route r l (returned w) = returned (record w {
  http_requests = λ a b c.
      bumped (bytes_eq r.method a && (bytes_eq route b && bytes_eq (decimal w.recorded) c))
        (w.http_requests a b c);
  http_duration = λ a b. bumped (bytes_eq r.method a && bytes_eq route b) (w.http_duration a b);
  log =
      w.log ++ record { trace_id = l; method = r.method; route = route; status = w.recorded } ∷ [];
})

-- `base.With("trace_id", …)` when the span has a trace id.
abbrev pub traced : Logger → Option Bytes → Logger
traced base none = base
traced base (some id) = some id

unfoldable pub instrument : Logger → Bytes → (Request → World → Outcome) → Request → World → Outcome
instrument base route next r w =
    let l = traced base r.trace_id in
    observed route r l
      (next (record r { logger = some l }) (record w { recorded = status_ok; sent = none }))
