-- ===== src/Obs/Setup.antt =====
-- m13-observability/solution-obs/obs.go: the metrics with `Registry`, and `InitTracer`. What the
-- OpenTelemetry calls answer is a parameter.
use go_learning.Common.{ℕ, List, [], ◌∷◌, Option, some, Bytes, ◌≡◌, refl}
use go_learning.GoErrors.{str, Result, ok, err}

pub data Kind : Type 0 where
  counter histogram : Kind

pub record Metric : Type 0 where
  pub kind : Kind
  pub name : Bytes
  pub labels : List Bytes

unfoldable pub http_requests : Metric
http_requests = record {
  kind = counter;
  name = str "http_requests_total";
  labels = str "method" ∷ str "route" ∷ str "status" ∷ [];
}

unfoldable pub http_duration : Metric
http_duration = record {
  kind = histogram;
  name = str "http_request_duration_seconds";
  labels = str "method" ∷ str "route" ∷ [];
}

unfoldable pub notifications_sent : Metric
notifications_sent = record { kind = counter; name = str "notifications_sent_total"; labels = [] }

-- What is registered, and so served at /metrics.
unfoldable pub registry : List Metric
registry = http_requests ∷ http_duration ∷ notifications_sent ∷ []

-- A provider for traces: its exporter, and the resource that names the service.
pub record TracerProvider : Type 0 where
  pub exporter : ℕ
  pub service : ℕ

abbrev resourced :
    Option TracerProvider → ℕ → Result ℕ → Result TracerProvider × Option TracerProvider
resourced before exporter (err e) = (err e, before)
resourced before exporter (ok service) =
    let provider : TracerProvider = record { exporter = exporter; service = service } in
    (ok provider, some provider)

abbrev exported :
    Option TracerProvider
    → (Bytes → Result ℕ)
    → Bytes
    → Result ℕ
    → Result TracerProvider × Option TracerProvider
exported before resource service_name (err e) = (err e, before)
exported before resource service_name (ok exporter) =
    resourced before exporter (resource service_name)

-- `InitTracer`: the provider whose `Shutdown` is returned, and the global one after the call.
unfoldable pub init_tracer :
    Result ℕ
    → (Bytes → Result ℕ)
    → Bytes
    → Option TracerProvider
    → Result TracerProvider × Option TracerProvider
init_tracer exporter resource service_name before = exported before resource service_name exporter

abbrev pub Installed :
    Option TracerProvider → Result TracerProvider × Option TracerProvider → Type 0
Installed before (ok provider, after) = after ≡ some provider
Installed before (err e, after) = after ≡ before

-- The provider that can be shut down is the global one; when a call fails, the global one stays.
pub init_tracer-Installed :
    (exporter : Result ℕ) (resource : Bytes → Result ℕ) (service_name : Bytes)
    (before : Option TracerProvider)
    → Installed before (init_tracer exporter resource service_name before)
unfolding init_tracer
init_tracer-Installed (err e) resource service_name before = refl
init_tracer-Installed (ok exporter) resource service_name before = split (resource service_name)
  where
    split : (r : Result ℕ) → Installed before (resourced before exporter r)
    split (err e) = refl
    split (ok service) = refl
