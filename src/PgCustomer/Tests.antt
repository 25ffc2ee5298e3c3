-- ===== src/PgCustomer/Tests.antt =====
-- m06-postgresql/solution-customer: the theorems over a small database whose foreign keys are known.
use go_learning.Common.{ℕ, List, [], ◌∷◌, none, some, Bytes, bytes_eq, ◌≡◌, refl, if◌then◌else◌}
use go_learning.Common.Int.{pos}
use go_learning.GoErrors.{str, Err, text, sentinel, no_rows, pg, ok, err, as_pg}
use go_learning.PgCustomer.Repo.{Db, foreign_key_violation, enroll_customer, in_tx, list_page}
use go_learning.PgCustomer.Enrolling.{
  IsTransactional, one_more, AllOrNothing, enroll_customer-AllOrNothing,
}
use go_learning.Handles.{NoLeak}
use go_learning.PgCustomer.Pool.{Driver, new_pool, migrate, Verified, new_pool-Verified}
use go_learning.PgCustomer.Mapping.{Listed, list_page-Listed}

-- The campaigns of the enrollments, and the campaigns of the updates.
abbrev Tables : Type 0
Tables = List Bytes × List Bytes

abbrev occurs : Bytes → List Bytes → ℕ
occurs other [] = 0
occurs other (c ∷ cs) = one_more c other (occurs other cs)

-- A customer called "x" does not exist.
abbrev sample_db : Db Tables
sample_db = record {
  insert_customer = λ id email name s. (err (text (str "read only")), s);
  select_customer = λ id s. err (sentinel no_rows);
  select_page =
      λ limit offset s. ok (record { scans = err (text (str "bad column")) ∷ []; last = none });
  insert_campaign = λ id name s. (none, s);
  insert_enrollment = λ customer campaign s.
      if bytes_eq customer (str "x")
      then (some (pg foreign_key_violation (str "no such customer")), s)
      else (none, (campaign ∷ s.0, s.1));
  bump_count = λ campaign s. (none, (s.0, campaign ∷ s.1));
  select_count = λ campaign s. ok (occurs campaign s.1);
  begin = λ s. none;
  commit = λ before view. (none, view);
  rollback = λ before view. before;
}

sample_db-IsTransactional : IsTransactional sample_db
sample_db-IsTransactional = record {
  rolls_back = λ before view. refl;
  commits = λ before view e. refl;
  aborts = λ before view x e. absurd (clash x e);
}
  where
    clash : (x : Err) → none ≡ some x → ⊥
    clash x p = cc

abbrev enrollments : Tables → Bytes → ℕ
enrollments s other = occurs other s.0

abbrev count : Tables → Bytes → ℕ
count s other = occurs other s.1

enroll_customer-AllOrNothing_example :
    AllOrNothing sample_db
      (str "ada")
      (str "spring")
      ([], [])
      (enroll_customer sample_db (str "ada") (str "spring") ([], []))
enroll_customer-AllOrNothing_example =
    enroll_customer-AllOrNothing sample_db sample_db-IsTransactional (str "ada") (str "spring")
      ([], [])

unknown_customer : (enroll_customer sample_db (str "x") (str "spring") ([], [])).1 ≡ ([], [])
unfolding enroll_customer in_tx as_pg
unknown_customer = refl

list_page-Listed_example :
    Listed
      (ok (record { scans = err (text (str "bad column")) ∷ []; last = none }))
      (list_page sample_db (pos 0) (pos 0) ([], []))
list_page-Listed_example = list_page-Listed sample_db (pos 0) (pos 0) ([], [])

-- The server does not answer the ping.
abbrev silent_driver : Driver
silent_driver = record {
  parse_config = λ dsn.
      ok (record { base = 0; max_conns = 4; max_conn_idle_time = 0; health_check_period = 0 });
  new_with_config = λ cfg. ok 7;
  ping = λ pool. some (text (str "connection refused"));
  open_sql = λ driver dsn. ok 8;
  set_dialect = λ dialect. none;
  up = λ db dir. none;
}

new_pool-Verified_example :
    NoLeak (λ h. h) (1 ∷ []) (new_pool silent_driver (str "postgres://db") (1 ∷ []))
    × Verified silent_driver
        (str "postgres://db")
        (new_pool silent_driver (str "postgres://db") (1 ∷ [])).0
    × ((migrate silent_driver (str "postgres://db") (1 ∷ [])).1 ≡ 1 ∷ [])
new_pool-Verified_example = new_pool-Verified silent_driver (str "postgres://db") (1 ∷ [])
