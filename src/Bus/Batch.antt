-- ===== src/Bus/Batch.antt =====
-- Joining a queue group and publishing a batch to it.
use go_learning.Common.{ℕ, List, [], ◌∷◌, Option, none, some, Bytes}
use go_learning.GoErrors.{Err, Result, ok, err}
use go_learning.Stream.{Marshaled}
use go_learning.Bus.{Nats, publish, queue_subscribe}
use go_learning.Bus.Calls.{Log, worker_logs}

module _ {T : Type 0} (unmarshal : Bytes → Option T) {S : Type 0} (nats : Nats S (Log unmarshal))
    (marshal : T → Marshaled) (subject queue : Bytes) where
  abbrev joined_by : Result ℕ → ℕ → List ℕ → List ℕ
  joined_by (ok id) w ws = w ∷ ws
  joined_by (err e) w ws = ws

  -- The workers whose subscription succeeded, the latest first, before those of `done`.
  abbrev pub joined : List ℕ → S → List ℕ → List ℕ
  joined [] s before = before
  joined (w ∷ ws) s before =
      let answer = queue_subscribe nats unmarshal subject queue ((worker_logs unmarshal) w) s in
      joined ws answer.1 (joined_by answer.0 w before)

  abbrev accepted_by : Option Err → T → List T → List T
  accepted_by none v vs = v ∷ vs
  accepted_by (some e) v vs = vs

  -- The values whose `Publish` returned nil.
  abbrev pub accepted : List T → S → List T
  accepted [] s = []
  accepted (v ∷ vs) s =
      let answer = publish nats marshal subject v s in accepted_by answer.0 v (accepted vs answer.1)
