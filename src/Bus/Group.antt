-- ===== src/Bus/Group.antt =====
-- The workers of a queue group: what core NATS documents, and what follows for the program.
use go_learning.Common.{ℕ, List, [], ◌∷◌, ◌++◌, none, some, Bytes, ◌≡◌, ◌⊎◌}
use go_learning.GoErrors.{Err, ok, err}
use go_learning.Bus.{Callback, Nats}

abbrev pub Member : {A : Type 0} → List (Callback A) → Callback A → Type 0
Member [] h = ⊥
Member (g ∷ gs) h = (h ≡ g) ⊎ Member gs h

-- Messages are given to callbacks in some order, each to one of them at most: core NATS delivers at
-- most once, and a message that is lost is given to none.
pub data Handled {A : Type 0} (hs : List (Callback A)) : List Bytes → A → A → Type 0 where
  nothing_left : {a : A} → Handled hs [] a a
  hand_over :
      {ds : List Bytes} {a b : A} (xs ys : List Bytes) (d : Bytes) (h : Callback A)
      → ds ≡ xs ++ d ∷ ys
      → Member hs h
      → Handled hs (xs ++ ys) (h d a).0 b
      → Handled hs ds a b
  lose :
      {ds : List Bytes} {a b : A} (xs ys : List Bytes) (d : Bytes)
      → ds ≡ xs ++ d ∷ ys
      → Handled hs (xs ++ ys) a b
      → Handled hs ds a b

-- What NATS promises of a subject with one queue group and no other subscription. `Has s hs ds`: the
-- group has the members `hs`, and `ds` was accepted for it. `settle` is what the callbacks have made of
-- the program's state once nothing more comes. No delivery is promised.
pub record QueueGroup {S A : Type 0} (nats : Nats S A) (subject queue : Bytes) : Type 1 where
  pub Has : S → List (Callback A) → List Bytes → Type 0
  pub settle : S → A → A
  pub starts : (url name : Bytes) (s : S) → nats.dial url name ≡ ok s → Has s [] []
  pub joins :
      (s t : S) (hs : List (Callback A)) (ds : List Bytes) (h : Callback A) (id : ℕ)
      → Has s hs ds
      → nats.queue_subscribe_bytes subject queue h s ≡ (ok id, t)
      → Has t (h ∷ hs) ds
  pub refuses :
      (s t : S) (hs : List (Callback A)) (ds : List Bytes) (h : Callback A) (e : Err)
      → Has s hs ds
      → nats.queue_subscribe_bytes subject queue h s ≡ (err e, t)
      → Has t hs ds
  pub queues :
      (s t : S) (hs : List (Callback A)) (ds : List Bytes) (d : Bytes)
      → Has s hs ds
      → nats.publish_bytes subject d s ≡ (none, t)
      → Has t hs (ds ++ d ∷ [])
  pub rejects :
      (s t : S) (hs : List (Callback A)) (ds : List Bytes) (d : Bytes) (e : Err)
      → Has s hs ds
      → nats.publish_bytes subject d s ≡ (some e, t)
      → Has t hs ds
  pub delivers :
      (s : S) (hs : List (Callback A)) (ds : List Bytes) (a : A)
      → Has s hs ds
      → Handled hs ds a (settle s a)
