-- ===== src/Obs/Tests.antt =====
-- m13-observability/solution-obs: the theorem at a concrete handler.
use go_learning.Common.{[], some, none}
use go_learning.GoErrors.{str}
use go_learning.Obs.{
  Logger, Request, World, Outcome, returned, record_header, instrument, default_logger,
}
use go_learning.Obs.Counting.{IsTraced, Instrumented, instrument-Instrumented, request_in, world_in}

abbrev not_found : Request → World → Outcome
not_found r w = returned (record_header 404 w)

abbrev get_profile : Request
get_profile = record { method = str "GET"; trace_id = some (str "abc"); logger = none }

abbrev start : World
start = record {
  http_requests = λ a b c. 0;
  http_duration = λ a b. 0;
  log = [];
  recorded = 0;
  sent = none;
}

instrument-Instrumented_example :
    (l : Logger) × IsTraced default_logger get_profile l
    × Instrumented l
        (str "/profiles/{id}")
        get_profile
        (not_found (request_in l get_profile) (world_in start))
        (instrument default_logger (str "/profiles/{id}") not_found get_profile start)
instrument-Instrumented_example =
    instrument-Instrumented default_logger (str "/profiles/{id}") not_found get_profile start
