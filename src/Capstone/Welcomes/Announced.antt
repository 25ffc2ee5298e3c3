-- ===== src/Capstone/Welcomes/Announced.antt =====
-- What the stream holds after a list of requests.
use go_learning.Common.{
  List, [], ◌∷◌, Option, none, some, All, All-append, Bytes, string_comparable, ◌==◌, ◌≡◌, refl,
  sym, ap, ◌∙◌, subst, inl, inr, Bool-cases, if◌then◌else◌,
}
use go_learning.Common.GoMap.{lookup, found}
use go_learning.GoErrors.{Err}
use go_learning.Stream.{CustomerEvent, Published, Marshaled, bytes, failed}
use go_learning.Capstone.Domain.{Customer}
use go_learning.Capstone.Events.{publish_customer_created, marshaled}
use go_learning.Capstone.Api.{Request, Env, World, event_of, new_customer, create}
use go_learning.Capstone.Api.Laws.{create_answers}
use go_learning.Capstone.Welcomes.{create_all, HasCustomer}

All-weaken :
    {A : Type 0} (P Q : A → Type 0) → ((a : A) → P a → Q a) → (xs : List A) → All P xs → All Q xs
All-weaken P Q f [] h = tt
All-weaken P Q f (x ∷ xs) (h, hs) = (f x h, All-weaken P Q f xs hs)

module _ (env : Env) where
  -- The message is the encoding of an event of a customer that is stored.
  unfoldable pub Announces : World → Published → Type 0
  Announces w m = (e : CustomerEvent) × (env.marshal e ≡ bytes m.bytes) × HasCustomer w e

  published-Announces :
      (w : World) (answer : Option Err) (e : CustomerEvent)
      → HasCustomer w e
      → All (Announces w) (publish_customer_created env.marshal answer e).1
  unfolding publish_customer_created Announces
  published-Announces w answer e h = by_marshal (env.marshal e) refl answer
    where
      by_marshal :
          (m : Marshaled)
          → env.marshal e ≡ m
          → (answer : Option Err) → All (Announces w) (marshaled e answer m).1
      by_marshal (failed err) same answer = tt
      by_marshal (bytes payload) same (some err) = tt
      by_marshal (bytes payload) same none = ((e, same, h), tt)

  kept_customer :
      (w v : World) (c : Customer) (e : CustomerEvent)
      → ((other : Bytes)
          → lookup other v.by_id ≡ (if c.id == other then some c else lookup other w.by_id))
      → HasCustomer w e
      → HasCustomer v e
  kept_customer w v c e others h = elim (Bool-cases (c.id == e.id)) [
    | inl same ↦ ap found (others e.id) ∙ rw same refl
    | inr other ↦ ap found (others e.id) ∙ rw other h
  ]

  create-Announces :
      (r : Request) (answer : Option Err) (w : World)
      → All (Announces w) w.stream
      → All (Announces (create env r answer w).0) (create env r answer w).0.stream
  unfolding Announces
  create-Announces r answer w h = elim (create_answers env r answer w) [
    | inl (why, (same, refused)) ↦ subst (λ v. All (Announces v) v.stream) (sym same) h
    | inr (req, is_req, good, (made, stored, others, stream)) ↦
        let v = (create env r answer w).0 in
        let c = new_customer r req in
        subst (All (Announces v)) (sym stream) (
          All-append (Announces v) w.stream
            (publish_customer_created env.marshal answer (event_of c)).1
            (All-weaken (Announces w) (Announces v)
              (λ m p. (p.0, p.1, kept_customer w v c p.0 others p.2)) w.stream h)
            (published-Announces v answer (event_of c) (ap found stored)))
  ]

  pub create_all-Announces :
      (rs : List (Request × Option Err)) (w : World)
      → All (Announces w) w.stream
      → All (Announces (create_all env rs w)) (create_all env rs w).stream
  unfolding create_all
  create_all-Announces [] w h = h
  create_all-Announces ((r, answer) ∷ rs) w h =
      create_all-Announces rs (create env r answer w).0 (create-Announces r answer w h)
