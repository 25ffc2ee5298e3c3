-- ===== src/RestApi/Repo/Laws.antt =====
-- What the repository keeps: one customer for each key and each e-mail address, and keys that are
-- numbered in the order of creation.
use mathlib.Core.List.{append_assoc, append-nil, Perm}
use mathlib.Core.List.Perm
use go_learning.Common.{
  if◌then◌else◌, ℕ, suc, ◌≤◌, List, [], ◌∷◌, ◌++◌, map, true, false, ◌||◌, Bytes, string_comparable,
  bytes_eq, bytes_eq_iff, bytes_eq_refl, All, length, ◌≡◌, ◌⊎◌, refl, sym, ap, ◌∙◌, arith, inl, inr,
  Bool-cases,
}
use go_learning.Common.GoMap.{
  insert, has, IsMap, MapOrder, insert-IsMap, length-insert_new, lookup-insert, has-lookup,
  All-insert,
}
use go_learning.Decimal.{padded}
use go_learning.Decimal.RoundTrip.{padded_injective}
use go_learning.GoErrors.{str, sentinel, customer_not_found, customer_conflict}
use go_learning.RestApi.Customer.{Customer}
use go_learning.RestApi.Repo.{
  InMemoryRepo, new_repo, customer_id, taken, stamped, ok, err, create, by_id, list_all, list_from,
}

-- A stored pair: its key is the number of a creation that has happened, and its customer's id.
abbrev pub IsNumbered : ℕ → Bytes × Customer → Type 0
IsNumbered seq p = (n : ℕ) × (p.0 ≡ customer_id n) × (n ≤ seq) × (p.1.id ≡ p.0)

abbrev pub DistinctEmails : List (Bytes × Customer) → Type 0
DistinctEmails [] = Unit
DistinctEmails ((k, c) ∷ m) = (taken c.email m ≡ false) × DistinctEmails m

pub record IsValid (r : InMemoryRepo) : Type 0 where
  pub keys : IsMap r.m
  pub numbered : All (IsNumbered r.seq) r.m
  pub counted : length r.m ≡ r.seq
  pub distinct : DistinctEmails r.m

prefix_injective : (p a b : Bytes) → p ++ a ≡ p ++ b → a ≡ b
prefix_injective [] a b e = e
prefix_injective (x ∷ p) a b e = prefix_injective p a b (cc)

customer_id_injective : (n m : ℕ) → customer_id n ≡ customer_id m → n ≡ m
unfolding customer_id
customer_id_injective n m e =
    padded_injective 4 n m (prefix_injective (str "cus_") (padded 4 n) (padded 4 m) e)

fresh :
    (seq : ℕ) (m : List (Bytes × Customer))
    → All (IsNumbered seq) m
    → has (customer_id (suc seq)) m ≡ false
unfolding has
fresh seq [] h = refl
fresh seq ((k, c) ∷ m) ((n, key, le, same), h) =
    elim (Bool-cases (bytes_eq k (customer_id (suc seq)))) [
      | inl e ↦
          let k_eq : k ≡ customer_id (suc seq) = (bytes_eq_iff _ _).0 e in
          let clash : n ≡ suc seq = customer_id_injective n (suc seq) (sym key ∙ k_eq) in
          absurd (omega arith)
      | inr ne ↦ rw ne (fresh seq m h)
    ]

later :
    (seq : ℕ) (m : List (Bytes × Customer)) → All (IsNumbered seq) m → All (IsNumbered (suc seq)) m
later seq [] h = tt
later seq (p ∷ m) ((n, key, le, same), h) = ((n, key, omega arith, same), later seq m h)

taken-insert :
    (email k : Bytes) (c : Customer) (m : List (Bytes × Customer))
    → has k m ≡ false
    → taken email (insert k c m) ≡ (taken email m || bytes_eq c.email email)
unfolding taken insert has
taken-insert email k c [] h = ground arith
taken-insert email k c ((j, d) ∷ m) h = ground (arith, taken-insert email k c m)

distinct-insert :
    (k : Bytes) (c : Customer) (m : List (Bytes × Customer))
    → has k m ≡ false
    → taken c.email m ≡ false
    → DistinctEmails m
    → DistinctEmails (insert k c m)
unfolding insert taken has
distinct-insert k c [] h t d = (refl, tt)
distinct-insert k c ((j, x) ∷ m) h t d = ground (
  arith,
  taken-insert x.email k c m,
  distinct-insert k c m,
  bytes_eq_iff x.email c.email,
  bytes_eq_iff c.email x.email,
)

create_new-IsValid :
    (now : ℕ) (c : Customer) (r : InMemoryRepo)
    → IsValid r
    → taken c.email r.m ≡ false
    → IsValid (create now c r).1
unfolding create
create_new-IsValid now c r v free =
    let id = customer_id (suc r.seq) in
    let d = stamped id now c in
    let new = fresh r.seq r.m v.numbered in
    rw free (record {
      keys = insert-IsMap id d r.m v.keys;
      numbered =
          All-insert (IsNumbered (suc r.seq)) id d r.m (later r.seq r.m v.numbered)
            (suc r.seq, refl, omega arith, refl);
      counted = length-insert_new id d r.m new ∙ ap suc v.counted;
      distinct = distinct-insert id d r.m new free v.distinct;
    })

-- `Create` keeps the repository valid, on success and on a conflict: keys are distinct and are the
-- ids of their customers, no two customers share an e-mail address, every id is `cus_` with the
-- number of a past creation, and `seq` is the number of customers. A new repository is valid.
pub create-IsValid :
    IsValid new_repo
    × ((now : ℕ) (c : Customer) (r : InMemoryRepo) → IsValid r → IsValid (create now c r).1)
unfolding create new_repo
create-IsValid = (
  record { keys = tt; numbered = tt; counted = refl; distinct = tt },
  λ now c r v. elim (Bool-cases (taken c.email r.m)) [
    | inl old ↦ rw old v
    | inr free ↦ create_new-IsValid now c r v free
  ],
)

-- On a valid repository, `Create` fails with `ErrConflict`, changing nothing, exactly when some
-- customer has the e-mail address; otherwise the customer comes back with a new id and both stamps
-- set to the clock, `ByID` finds it under that id, and every other id gives what it gave before.
pub create_lem :
    (now : ℕ) (c : Customer) (r : InMemoryRepo)
    → IsValid r
    → let id = customer_id (suc r.seq) in
      ((taken c.email r.m ≡ true) × (create now c r ≡ (err (sentinel customer_conflict), r)))
      ⊎ ((taken c.email r.m ≡ false)
          × ((create now c r).0 ≡ ok (stamped id now c))
          × (by_id id r ≡ err (sentinel customer_not_found))
          × (by_id id (create now c r).1 ≡ ok (stamped id now c))
          × ((other : Bytes)
              → by_id other (create now c r).1
                ≡ (if bytes_eq id other then ok (stamped id now c) else by_id other r)))
unfolding create by_id
create_lem now c r v = elim (Bool-cases (taken c.email r.m)) [
  | inl old ↦ inl (old, rw old)
  | inr free ↦
      let id = customer_id (suc r.seq) in
      let d = stamped id now c in
      inr (
        free,
        rw free,
        rw (has-lookup id r.m (fresh r.seq r.m v.numbered)),
        rw free (rw (lookup-insert id id d r.m, bytes_eq_refl id)),
        λ other. rw free (
            rw (lookup-insert id other d r.m) (elim (Bool-cases (bytes_eq id other)) [
              | inl same ↦ rw same
              | inr differ ↦ rw differ
            ])),
      )
]

list_from-append :
    (out : List Customer) (m : List (Bytes × Customer)) → list_from out m ≡ out ++ map (λ p. p.1) m
unfolding list_from
list_from-append out [] = sym (append-nil out)
list_from-append out ((k, c) ∷ m) =
    list_from-append (out ++ c ∷ []) m ∙ append_assoc out (c ∷ []) (map (λ p. p.1) m)

-- `List` returns each stored customer once, in some order.
pub list_all-perm :
    (order : MapOrder Bytes Customer) (r : InMemoryRepo)
    → Perm (list_all order r) (map (λ p. p.1) r.m)
unfolding list_all
list_all-perm order r =
    rw (list_from-append [] (order.visit r.m)) (Perm.map (λ p. p.1) (order.visit_perm r.m))
