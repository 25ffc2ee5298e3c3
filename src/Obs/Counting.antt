-- ===== src/Obs/Counting.antt =====
-- What `Instrument` counts and logs.
use go_learning.Common.{
  suc, [], ◌∷◌, ◌++◌, Option, none, some, Bytes, bytes_eq_refl, bytes_eq_iff, ◌≡◌, refl, ◌⊎◌, inl,
  inr, arith,
}
use go_learning.Decimal.{decimal}
use go_learning.GoHttp.{status_ok}
use go_learning.Obs.{
  Logger, World, Request, Outcome, returned, panicked, observed, traced, instrument,
}

-- The logger `l` of a request: the base with the span's trace id, if it has one.
abbrev pub IsTraced : Logger → Request → Logger → Type 0
IsTraced base r l =
    ((id : Bytes) × (r.trace_id ≡ some id) × (l ≡ some id)) ⊎ ((r.trace_id ≡ none) × (l ≡ base))

-- What the handler is run on.
abbrev pub request_in : Logger → Request → Request
request_in l r = record r { logger = some l }

abbrev pub world_in : World → World
world_in w = record w { recorded = status_ok; sent = none }

-- What is there after the handler ended in this way.
abbrev pub Instrumented : Logger → Bytes → Request → Outcome → Outcome → Type 0
Instrumented l route r (panicked w) out = out ≡ panicked w
Instrumented l route r (returned w) out =
    (w' : World) × (out ≡ returned w')
    × (w'.http_requests r.method route (decimal w.recorded)
        ≡ suc (w.http_requests r.method route (decimal w.recorded)))
    × ((a b c : Bytes)
        → (w'.http_requests a b c ≡ w.http_requests a b c)
          ⊎ ((a ≡ r.method) × (b ≡ route) × (c ≡ decimal w.recorded)))
    × (w'.http_duration r.method route ≡ suc (w.http_duration r.method route))
    × (w'.log
        ≡ w.log
          ++ record { trace_id = l; method = r.method; route = route; status = w.recorded } ∷ [])

-- A handler that returns is counted once, under its method, the route pattern and the status that the
-- recorder, which starts at 200, holds then, and under no other labels; its duration is observed once;
-- and there is one log record, whose trace id is the span's if it has one, and that of the base logger
-- if not. The handler finds that logger in its context. A handler that panics is neither counted nor
-- logged.
pub instrument-Instrumented :
    (base : Logger) (route : Bytes) (next : Request → World → Outcome) (r : Request) (w : World)
    → (l : Logger) × IsTraced base r l
      × Instrumented l route r (next (request_in l r) (world_in w)) (instrument base route next r w)
unfolding instrument
instrument-Instrumented base route next r w =
    let l = traced base r.trace_id in
    (l, traced-lem r.trace_id, go l (next (request_in l r) (world_in w)))
  where
    traced-lem :
        (o : Option Bytes)
        → ((id : Bytes) × (o ≡ some id) × (traced base o ≡ some id))
          ⊎ ((o ≡ none) × (traced base o ≡ base))
    traced-lem none = inr (refl, refl)
    traced-lem (some id) = inl (id, refl, refl)

    go : (l : Logger) (o : Outcome) → Instrumented l route r o (observed route r l o)
    go l (panicked w') = refl
    go l (returned w') = (
      _,
      refl,
      rw (bytes_eq_refl r.method, bytes_eq_refl route, bytes_eq_refl (decimal w'.recorded)) refl,
      (λ a b c. ground (
        arith,
        bytes_eq_iff r.method a,
        bytes_eq_iff route b,
        bytes_eq_iff (decimal w'.recorded) c,
      )),
      rw (bytes_eq_refl r.method, bytes_eq_refl route) refl,
      refl,
    )
