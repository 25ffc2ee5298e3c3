-- ===== src/Bus/Tests.antt =====
-- m08-nats-core/solution-bus/bus.go: the theorem over a broker that keeps the members of the group,
-- loses the first message that was accepted, and hands the others to the member that joined last.
use go_learning.Common.{
  ℕ, List, [], ◌∷◌, ◌++◌, Option, none, some, Bytes, ◌≡◌, refl, sym, ap, subst, inl,
}
use go_learning.GoErrors.{Err, Result, ok, err, str, text}
use go_learning.Stream.{Marshaled, bytes, failed}
use go_learning.Bus.{Callback, Nats, subscribe_workers}
use go_learning.Bus.Group.{Handled, nothing_left, hand_over, lose, QueueGroup}
use go_learning.Bus.Calls.{worker_logs}

abbrev encode : ℕ → Marshaled
encode n = bytes (n ∷ [])

abbrev decode : Bytes → Option ℕ
decode [] = none
decode (n ∷ []) = some n
decode (n ∷ m ∷ ns) = none

abbrev created_subject : Bytes
created_subject = str "cxm.customer.created"

abbrev worker_queue : Bytes
worker_queue = str "notify-workers"

abbrev Calls : Type 0
Calls = List (ℕ × ℕ)

record Broker : Type 0 where
  members : List (Callback Calls)
  waiting : List Bytes

abbrev no_members : Broker
no_members = record { members = []; waiting = [] }

abbrev broker : Nats Broker Calls
broker = record {
  dial = λ url name. ok no_members;
  drain_all = λ s. (none, s);
  flush_all = λ s. (none, s);
  publish_bytes = λ subject d s. (none, record s { waiting = s.waiting ++ d ∷ [] });
  subscribe_bytes = λ subject h s. (ok 0, s);
  queue_subscribe_bytes = λ subject queue h s. (ok 0, record s { members = h ∷ s.members });
  request_bytes = λ subject payload timeout s. (err (text (str "nats: no responders")), s);
}

abbrev hand_all : Callback Calls → List Bytes → Calls → Calls
hand_all h [] a = a
hand_all h (d ∷ ds) a = hand_all h ds (h d a).0

abbrev hand_to : List (Callback Calls) → List Bytes → Calls → Calls
hand_to [] ds a = a
hand_to (h ∷ hs) [] a = a
hand_to (h ∷ hs) (d ∷ ds) a = hand_all h ds a

all_lost : (hs : List (Callback Calls)) (ds : List Bytes) (a : Calls) → Handled hs ds a a
all_lost hs [] a = nothing_left
all_lost hs (d ∷ ds) a = lose [] ds d refl (all_lost hs ds a)

hand_all-Handled :
    (h : Callback Calls) (hs : List (Callback Calls)) (ds : List Bytes) (a : Calls)
    → Handled (h ∷ hs) ds a (hand_all h ds a)
hand_all-Handled h hs [] a = nothing_left
hand_all-Handled h hs (d ∷ ds) a =
    hand_over [] ds d h refl (inl refl) (hand_all-Handled h hs ds (h d a).0)

abbrev unwrap : Result Broker → Broker
unwrap (ok s) = s
unwrap (err e) = no_members

abbrev Waits : Broker → List (Callback Calls) → List Bytes → Type 0
Waits s hs ds = (s.members ≡ hs) × (s.waiting ≡ ds)

not_refused : (r : Result ℕ) (x : Err) → r ≡ ok 0 → r ≡ err x → ⊥
not_refused r x e f = cc

not_rejected : (x : Err) → none ≡ some x → ⊥
not_rejected x e = cc

payload_of : Marshaled → Bytes
payload_of (bytes d) = d
payload_of (failed x) = []

hand_to-Handled :
    (hs : List (Callback Calls)) (ds : List Bytes) (a : Calls) → Handled hs ds a (hand_to hs ds a)
hand_to-Handled [] ds a = all_lost [] ds a
hand_to-Handled (h ∷ hs) [] a = nothing_left
hand_to-Handled (h ∷ hs) (d ∷ ds) a = lose [] ds d refl (hand_all-Handled h hs ds a)

handed :
    (s : Broker) (hs : List (Callback Calls)) (ds : List Bytes) (a : Calls)
    → Waits s hs ds
    → Handled hs ds a (hand_to s.members s.waiting a)
handed s hs ds a (m, w) =
    subst (λ l. Handled hs ds a (hand_to l s.waiting a)) (sym m)
      (subst (λ l. Handled hs ds a (hand_to hs l a)) (sym w) (hand_to-Handled hs ds a))

abbrev group : QueueGroup broker created_subject worker_queue
group = record {
  Has = Waits;
  settle = λ s a. hand_to s.members s.waiting a;
  starts = λ url name s e. subst (λ t. Waits t [] []) (ap unwrap e) (refl, refl);
  joins = λ s t hs ds h id has e.
      subst (λ u. Waits u (h ∷ hs) ds) (ap (λ r. r.1) e) (ap (λ l. h ∷ l) has.0, has.1);
  refuses = λ s t hs ds h x has e. absurd (not_refused (ok 0) x refl (ap (λ r. r.0) e));
  queues = λ s t hs ds d has e.
      subst (λ u. Waits u hs (ds ++ d ∷ [])) (ap (λ r. r.1) e) (has.0, ap (λ l. l ++ d ∷ []) has.1);
  rejects = λ s t hs ds d x has e. absurd (not_rejected x (ap (λ r. r.0) e));
  delivers = handed;
}

abbrev connection : Broker
connection =
    subscribe_workers broker decode created_subject worker_queue (worker_logs decode) (1 ∷ 2 ∷ [])
      no_members
