-- ===== src/PgCustomer/Enrolling.antt =====
-- `EnrollCustomer` is all or nothing, and keeps a campaign's count.
use go_learning.Common.{
  ℕ, ◌+◌, Option, none, some, Bytes, bytes_eq, ◌≡◌, ◌≢◌, ◌⊎◌, refl, sym, ap, ◌∙◌, subst, inl, inr,
  if◌then◌else◌,
}
use go_learning.GoErrors.{str, Err, wrapped}
use go_learning.PgCustomer.Repo.{
  Db, begun, finished, in_tx, enrolled, bumped, enroll_error, enroll_customer,
}

-- What PostgreSQL promises of a transaction: a rollback, and a commit that fails, leave what was
-- there before; a commit that succeeds leaves the view of the transaction.
pub record IsTransactional {S : Type 0} (db : Db S) : Type 0 where
  pub rolls_back : (before view : S) → db.rollback before view ≡ before
  pub commits :
      (before view : S) → (db.commit before view).0 ≡ none → (db.commit before view).1 ≡ view
  pub aborts :
      (before view : S) (e : Err)
      → (db.commit before view).0 ≡ some e
      → (db.commit before view).1 ≡ before

-- The counts that one more enrollment in `campaign` makes of `n`.
abbrev pub one_more : (campaign other : Bytes) → ℕ → ℕ
one_more campaign other n = if bytes_eq campaign other then n + 1 else n

-- What the two statements do to the number of enrollments of a campaign and to its
-- `enrolled_count`, when they succeed.
pub record IsCounting {S : Type 0} (db : Db S) (enrollments count : S → Bytes → ℕ) : Type 0 where
  pub inserts :
      (customer campaign other : Bytes) (s : S)
      → (db.insert_enrollment customer campaign s).0 ≡ none
      → (enrollments (db.insert_enrollment customer campaign s).1 other
          ≡ one_more campaign other (enrollments s other))
        × (count (db.insert_enrollment customer campaign s).1 other ≡ count s other)
  pub bumps :
      (campaign other : Bytes) (s : S)
      → (db.bump_count campaign s).0 ≡ none
      → (count (db.bump_count campaign s).1 other ≡ one_more campaign other (count s other))
        × (enrollments (db.bump_count campaign s).1 other ≡ enrollments s other)

module _ {S : Type 0} (db : Db S) where
  -- The state that both statements leave.
  abbrev pub both : (customer campaign : Bytes) → S → S
  both customer campaign s = (db.bump_count campaign (db.insert_enrollment customer campaign s).1).1

  -- How an enrollment can end.
  abbrev pub AllOrNothing : (customer campaign : Bytes) → S → Option Err × S → Type 0
  AllOrNothing customer campaign s out =
      ((out.0 ≢ none) × (out.1 ≡ s))
      ⊎ ((out.0 ≡ none)
          × (out.1 ≡ both customer campaign s)
          × ((db.insert_enrollment customer campaign s).0 ≡ none)
          × ((db.bump_count campaign (db.insert_enrollment customer campaign s).1).0 ≡ none))

module _ {S : Type 0} (db : Db S) (tx : IsTransactional db) where
  committed :
      (customer campaign : Bytes) (s : S) (o : Option Err)
      → (db.insert_enrollment customer campaign s).0 ≡ none
      → (db.bump_count campaign (db.insert_enrollment customer campaign s).1).0 ≡ none
      → (db.commit s (both db customer campaign s)).0 ≡ o
      → AllOrNothing db customer campaign s (db.commit s (both db customer campaign s))
  committed customer campaign s none inserted bumped_too e =
      inr (e, tx.commits s (both db customer campaign s) e, inserted, bumped_too)
  committed customer campaign s (some x) inserted bumped_too e =
      inl (λ n. clash x (sym e ∙ n), tx.aborts s (both db customer campaign s) x e)
    where
      clash : (x : Err) → some x ≡ none → ⊥
      clash x p = cc

  failed :
      (customer campaign : Bytes) (s view : S) (x : Err)
      → AllOrNothing db customer campaign s (some x, db.rollback s view)
  failed customer campaign s view x = inl ((λ p. cc), tx.rolls_back s view)

  after_bump :
      (customer campaign : Bytes) (s : S) (o : Option Err × S)
      → (db.insert_enrollment customer campaign s).0 ≡ none
      → db.bump_count campaign (db.insert_enrollment customer campaign s).1 ≡ o
      → AllOrNothing db customer campaign s (finished db s (bumped db o))
  after_bump customer campaign s (some x, view) inserted e =
      failed customer campaign s view (wrapped (str "bump count: ") x)
  after_bump customer campaign s (none, view) inserted e =
      subst (λ v. AllOrNothing db customer campaign s (db.commit s v)) (ap (λ o. o.1) e)
        (committed customer campaign s (db.commit s (both db customer campaign s)).0 inserted
          (ap (λ o. o.0) e) refl)

  after_insert :
      (customer campaign : Bytes) (s : S) (o : Option Err × S)
      → db.insert_enrollment customer campaign s ≡ o
      → AllOrNothing db customer campaign s (finished db s (enrolled db campaign o))
  after_insert customer campaign s (some x, view) e =
      failed customer campaign s view (enroll_error db x)
  after_insert customer campaign s (none, view) e =
      subst
        (λ v.
          AllOrNothing db customer campaign s
            (finished db s (bumped db (db.bump_count campaign v))))
        (ap (λ o. o.1) e)
        (after_bump customer campaign s
          (db.bump_count campaign (db.insert_enrollment customer campaign s).1) (ap (λ o. o.0) e)
          refl)

  -- Over a database whose transactions are atomic, `EnrollCustomer` is all or nothing: with an error
  -- the database is as before, whichever step failed, the beginning and the commit included; without
  -- one it holds what the insert and the update made, both of which succeeded.
  pub enroll_customer-AllOrNothing :
      (customer campaign : Bytes) (s : S)
      → AllOrNothing db customer campaign s (enroll_customer db customer campaign s)
  unfolding enroll_customer in_tx
  enroll_customer-AllOrNothing customer campaign s = begins (db.begin s)
    where
      begins :
          (o : Option Err)
          → AllOrNothing db customer campaign s
              (begun db s (λ t. enrolled db campaign (db.insert_enrollment customer campaign t)) o)
      begins (some x) = inl ((λ p. cc), refl)
      begins none = after_insert customer campaign s (db.insert_enrollment customer campaign s) refl
