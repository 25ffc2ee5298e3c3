-- ===== src/Bus.antt =====
-- m08-nats-core/solution-bus/bus.go, and of m08-nats-core/solution-cmd/demo/main.go the loops that
-- subscribe the workers and publish the batch. The NATS client is a parameter, `Nats`: its calls work
-- on the client's state `S`; what the callbacks of the program change is `A`. `encoding/json` is a
-- parameter too.
pub mod Group
pub mod Calls
pub mod Batch
mod Tests
use go_learning.Common.{ℕ, List, [], ◌∷◌, ◌++◌, Option, none, some, Bytes}
use go_learning.Common.Int.{ℤ}
use go_learning.GoErrors.{str, Err, wrapped, Result, ok, err}
use go_learning.Stream.{Marshaled, bytes, failed}

-- What a callback does with the payload of a message, and what it responds, if it does.
abbrev pub Callback : Type 0 → Type 0
Callback A = Bytes → A → A × Option Bytes

-- `subscribe_bytes` and `queue_subscribe_bytes` answer with a subscription, which is a number here.
-- Times are in nanoseconds.
pub record Nats (S A : Type 0) : Type 0 where
  pub dial : (url name : Bytes) → Result S
  pub drain_all : S → Option Err × S
  pub flush_all : S → Option Err × S
  pub publish_bytes : (subject payload : Bytes) → S → Option Err × S
  pub subscribe_bytes : (subject : Bytes) → Callback A → S → Result ℕ × S
  pub queue_subscribe_bytes : (subject queue : Bytes) → Callback A → S → Result ℕ × S
  pub request_bytes : (subject payload : Bytes) → ℤ → S → Result Bytes × S

-- The callback of `Subscribe` and `QueueSubscribe`.
unfoldable pub on_message : {T A : Type 0} → (Bytes → Option T) → (T → A → A) → Callback A
on_message unmarshal fn payload a = elim (unmarshal payload) [
  | none ↦ (a, none)
  | some v ↦ (fn v a, none)
]

abbrev pub dialed : {S : Type 0} → Result S → Result S
dialed (ok s) = ok s
dialed (err e) = err (wrapped (str "nats connect: ") e)

abbrev pub replied : {S : Type 0} → Bytes → Result Bytes × S → Result Bytes × S
replied subject (ok reply, s) = (ok reply, s)
replied subject (err e, s) = (err (wrapped (str "request " ++ (subject ++ str ": ")) e), s)

module _ {S A : Type 0} (nats : Nats S A) where
  unfoldable pub connect : (url name : Bytes) → Result S
  connect url name = dialed (nats.dial url name)

  unfoldable pub drain : S → Option Err × S
  drain s = nats.drain_all s

  unfoldable pub flush : S → Option Err × S
  flush s = nats.flush_all s

  abbrev pub publish_marshaled : Bytes → Marshaled → S → Option Err × S
  publish_marshaled subject (failed e) s = (some (wrapped (str "marshal: ") e), s)
  publish_marshaled subject (bytes payload) s = nats.publish_bytes subject payload s

  -- `marshal` is `json.Marshal`.
  unfoldable pub publish : {T : Type 0} → (T → Marshaled) → Bytes → T → S → Option Err × S
  publish marshal subject v s = publish_marshaled subject (marshal v) s

  -- `unmarshal` is `json.Unmarshal` into a fresh value.
  unfoldable pub subscribe :
      {T : Type 0} → (Bytes → Option T) → Bytes → (T → A → A) → S → Result ℕ × S
  subscribe unmarshal subject fn s = nats.subscribe_bytes subject (on_message unmarshal fn) s

  unfoldable pub queue_subscribe :
      {T : Type 0} → (Bytes → Option T) → (subject queue : Bytes) → (T → A → A) → S → Result ℕ × S
  queue_subscribe unmarshal subject queue fn s =
      nats.queue_subscribe_bytes subject queue (on_message unmarshal fn) s

  unfoldable pub request : (subject payload : Bytes) → ℤ → S → Result Bytes × S
  request subject payload timeout s = replied subject (nats.request_bytes subject payload timeout s)

  -- The error of `Respond` is ignored.
  unfoldable pub serve_reply : Bytes → (Bytes → Bytes) → S → Result ℕ × S
  serve_reply subject handler s =
      nats.subscribe_bytes subject (λ payload a. (a, some (handler payload))) s

  -- The demo's loops: errors of `QueueSubscribe` and `Publish` are ignored.
  unfoldable pub subscribe_workers :
      {T : Type 0} → (Bytes → Option T) → (subject queue : Bytes) → (ℕ → T → A → A) → List ℕ → S → S
  subscribe_workers unmarshal subject queue fn [] s = s
  subscribe_workers unmarshal subject queue fn (w ∷ ws) s =
      subscribe_workers unmarshal subject queue fn ws
        (queue_subscribe unmarshal subject queue (fn w) s).1

  unfoldable pub publish_batch : {T : Type 0} → (T → Marshaled) → Bytes → List T → S → S
  publish_batch marshal subject [] s = s
  publish_batch marshal subject (v ∷ vs) s =
      publish_batch marshal subject vs (publish marshal subject v s).1
