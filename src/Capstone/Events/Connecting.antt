-- ===== src/Capstone/Events/Connecting.antt =====
-- m14-capstone/events/events.go: `Connect`, `EnsureStream` and `Start`, and their use in
-- m14-capstone/cmd/pulse/main.go. The two calls after the first are word for word those of m09.
use go_learning.Common.{ℕ, List, [], Bytes, ◌++◌, bytes_eq, if◌then◌else◌}
use go_learning.Common.Int.{pos}
use go_learning.GoErrors.{str, message, Result, ok, err}
use go_learning.Stream.Connecting.{JetStream, connect_with, ensure_stream, start}

unfoldable pub connect : JetStream → Bytes → List ℕ → Result (ℕ × ℕ) × List ℕ
connect = connect_with (str "connect: ")

-- How far `main` comes: to `log.Fatal` with its text, or to a consumer that runs; `stop` ends it.
pub data Boot : Type 0 where
  fatal : Bytes → Boot
  consuming : (nc js stream stop : ℕ) → Boot

abbrev pub consumer_started : ℕ → ℕ → ℕ → Result ℕ → Boot
consumer_started nc js stream (ok stop) = consuming nc js stream stop
consumer_started nc js stream (err e) = fatal (str "consumer: " ++ message e)

abbrev pub stream_ensured : JetStream → ℕ → ℕ → Result ℕ → Boot
stream_ensured client nc js (ok stream) =
    consumer_started nc js stream (start client (pos 5) stream (str "notify-workers"))
stream_ensured client nc js (err e) = fatal (str "stream: " ++ message e)

abbrev pub connected : JetStream → Result (ℕ × ℕ) → Boot
connected client (ok (nc, js)) = stream_ensured client nc js (ensure_stream client js)
connected client (err e) = fatal (str "connect: " ++ message e)

-- `main` up to the consumer; `url` is the variable PULSE_NATS_URL. The deletion of an old stream,
-- whose error is ignored, is left out.
unfoldable pub boot : JetStream → Bytes → Boot
boot client url =
    if bytes_eq url []
    then fatal (str "PULSE_NATS_URL is required")
    else connected client (connect client url []).0
