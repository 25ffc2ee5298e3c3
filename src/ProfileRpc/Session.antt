-- ===== src/ProfileRpc/Session.antt =====
-- A client and the server behind it, over any repository that keeps the contract.
use go_learning.Common.{
  ℕ, ◌/◌, ◌*◌, [], ◌∷◌, some, true, false, Bytes, bytes_eq, bytes_eq_refl, string_comparable, ◌≡◌,
  ◌≢◌, ◌⊎◌, refl, sym, ap, subst, ◌∙◌, inl, inr, if◌then◌else◌, Bool-cases,
}
use go_learning.Common.GoMap.{lookup, lookup-insert}
use go_learning.GoErrors.{
  str, Err, is, sentinel, profile_not_found, wrapped, Result, ok, err, as_rpc,
}
use go_learning.ProfileRpc.Repo.{
  Profile, Repo, IsRepo, InMemoryRepo, get_profile_of, put_profile, found_profile, in_memory,
}
use go_learning.ProfileRpc.Server.{
  saved, got, UpsertRequest, ProtoProfile, to_proto, second, get_profile, id_required,
  internal_error,
}
use go_learning.ProfileRpc.Server
use go_learning.ProfileRpc.Client.{translated, client_get, status_code}

-- The repository in memory keeps the contract of `Repo`: what `Upsert` saved is what `Get` finds.
pub in_memory-IsRepo : IsRepo in_memory
unfolding in_memory get_profile_of put_profile
in_memory-IsRepo = record {
  get_upsert = λ s p saved s' e.
      ap (λ out. found_profile (lookup p.customer_id out.1.profiles)) (sym e)
      ∙ ap found_profile (lookup-insert p.customer_id p.customer_id p s.profiles)
      ∙ same s p saved s' e;
}
  where
    same :
        (s : InMemoryRepo) (p saved : Profile) (s' : InMemoryRepo)
        → put_profile s p ≡ (ok saved, s')
        → found_profile (
            if bytes_eq p.customer_id p.customer_id
            then some p
            else lookup p.customer_id s.profiles)
          ≡ ok saved
    same s p saved s' e = rw (bytes_eq_refl p.customer_id) (ap (λ out. out.0) e)

-- What a client may make of the repository's answer for an id that is not empty.
abbrev pub ClientSees : Result Profile → Result Profile → Type 0
ClientSees (ok p) seen =
    seen
    ≡ ok (record {
      customer_id = p.customer_id;
      traits = p.traits;
      updated_at = (p.updated_at / second) * second;
    })
ClientSees (err e) seen =
    ((is profile_not_found e ≡ true) × (seen ≡ err (sentinel profile_not_found)))
    ⊎ ((is profile_not_found e ≡ false)
        × (seen ≡ err (wrapped (str "get profile: ") internal_error)))

ne→bytes_eq : (id : Bytes) → id ≢ [] → bytes_eq id [] ≡ false
ne→bytes_eq [] h = absurd (h refl)
ne→bytes_eq (b ∷ id) h = refl

module _ {S : Type 0} (repo : Repo S) (quote : Bytes → Bytes) where
  translated-got :
      (id : Bytes) (o : Result Profile) → ClientSees o (translated (got repo quote id o))
  unfolding status_code as_rpc
  translated-got id (ok p) = refl
  translated-got id (err e) = elim (Bool-cases (is profile_not_found e)) [
    | inl absent ↦ rw absent (inl (refl, refl))
    | inr other ↦ rw other (inr (refl, refl))
  ]

  -- For an id that is not empty: a client gets a stored profile with its time cut to the second; it
  -- gets the domain's "not found" exactly when the repository's error is that one, whatever wraps
  -- it there; and any other error becomes one that tells nothing of the cause.
  pub client_get-get_profile :
      (s : S) (id : Bytes)
      → id ≢ []
      → ClientSees (repo.get s id) (client_get (get_profile repo quote s) id)
  unfolding client_get get_profile
  client_get-get_profile s id h = rw (ne→bytes_eq id h) (translated-got id (repo.get s id))

  -- Over a repository that keeps the contract: after an `UpsertProfile` that succeeds for an id
  -- that is not empty, the client's
  -- `GetProfile` for the same customer returns the profile that the answer showed.
  pub upsert-get :
      (keeps : IsRepo repo) (s s' : S) (req : UpsertRequest) (now : ℕ) (shown : ProtoProfile)
      → req.customer_id ≢ []
      → Server.upsert_profile repo s req now ≡ (ok shown, s')
      → client_get (get_profile repo quote s') req.customer_id
        ≡ ok (record {
          customer_id = shown.customer_id;
          traits = shown.traits;
          updated_at = shown.updated_at_unix * second;
        })
  unfolding client_get get_profile Server.upsert_profile
  upsert-get keeps s s' req now shown h e =
      let filled = ne→bytes_eq req.customer_id h in
      go (repo.upsert s stored) refl (sym (skip filled) ∙ e) filled
    where
      stored : Profile
      stored = record { customer_id = req.customer_id; traits = req.traits; updated_at = now }

      skip :
          bytes_eq req.customer_id [] ≡ false
          → Server.upsert_profile repo s req now ≡ saved repo (repo.upsert s stored)
      skip filled = rw filled

      clash : (x : Err) → ◌≡◌ {A = Result ProtoProfile} (err x) (ok shown) → ⊥
      clash x p = cc

      go :
          (out : Result Profile × S)
          → repo.upsert s stored ≡ out
          → saved repo out ≡ (ok shown, s')
          → bytes_eq req.customer_id [] ≡ false
          → client_get (get_profile repo quote s') req.customer_id
            ≡ ok (record {
              customer_id = shown.customer_id;
              traits = shown.traits;
              updated_at = shown.updated_at_unix * second;
            })
      go (ok q, s'') made e filled =
          let found : repo.get s' req.customer_id ≡ ok q =
            subst (λ t. repo.get t req.customer_id ≡ ok q) (ap (λ out. out.1) e)
              (keeps.get_upsert s stored q s'' made) in
          rw filled (
            ap (λ o. translated (got repo quote req.customer_id o)) found
            ∙ ap (λ out. translated out.0) e)
      go (err x, s'') made e filled = absurd (clash internal_error (ap (λ out. out.0) e))
