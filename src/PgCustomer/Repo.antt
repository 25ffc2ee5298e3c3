-- ===== src/PgCustomer/Repo.antt =====
-- m06-postgresql/solution-customer/customer.go. The pool and the server behind it are a parameter,
-- `Db`: each statement of the source is one operation on the server's state `S`, which answers with
-- what `Scan` or `Exec` returns. Within a transaction the statements work on its view of the state.
use go_learning.Common.{
  ℕ, List, [], ◌∷◌, ◌++◌, Option, none, some, Bool, false, Bytes, bytes_eq, not, if◌then◌else◌,
}
use go_learning.Common.Int.{ℤ, pos, ltb_ℤ}
use go_learning.GoErrors.{
  str, Err, text, wrapped, sentinel, customer_not_found, customer_conflict, no_rows, is, as_pg,
  Result, ok, err,
}
use go_learning.GoStrings.{contains_byte, is_blank, hex}

pub record Customer : Type 0 where
  pub id : Bytes
  pub email : Bytes
  pub name : Bytes
  pub created_at : ℕ
  pub updated_at : ℕ

unfoldable pub validate : Customer → Option Err
validate c =
    if not (contains_byte b'@' c.email)
    then some (text (str "email must contain @"))
    else if is_blank c.name
    then some (text (str "name must not be empty"))
    else none

-- The result of a query for several rows: what `scanCustomer` gives for each, and `rows.Err()`.
pub record Rows : Type 0 where
  pub scans : List (Result Customer)
  pub last : Option Err

pub record Db (S : Type 0) : Type 0 where
  pub insert_customer : (id email name : Bytes) → S → Result Customer × S
  pub select_customer : (id : Bytes) → S → Result Customer
  pub select_page : (limit offset : ℤ) → S → Result Rows
  pub insert_campaign : (id name : Bytes) → S → Option Err × S
  pub insert_enrollment : (customer_id campaign_id : Bytes) → S → Option Err × S
  pub bump_count : (campaign_id : Bytes) → S → Option Err × S
  pub select_count : (campaign_id : Bytes) → S → Result ℕ
  pub begin : S → Option Err
  pub commit : (before view : S) → Option Err × S
  pub rollback : (before view : S) → S

abbrev pub unique_violation : Bytes
unique_violation = str "23505"

abbrev pub foreign_key_violation : Bytes
foreign_key_violation = str "23503"

-- `errors.As(err, &pgErr) && pgErr.Code == code`
abbrev pub has_state : Bytes → Option Bytes → Bool
has_state code none = false
has_state code (some c) = bytes_eq c code

-- `newID()`, from eight random bytes.
unfoldable pub new_id : List ℕ → Bytes
new_id random = str "cus_" ++ hex random

module _ {S : Type 0} (db : Db S) where
  abbrev pub created : Result Customer × S → Result Customer × S
  created (ok c, s) = (ok c, s)
  created (err e, s) =
      if has_state unique_violation (as_pg e)
      then (err (sentinel customer_conflict), s)
      else (err (wrapped (str "create customer: ") e), s)

  unfoldable pub create : List ℕ → Customer → S → Result Customer × S
  create random c s = created (db.insert_customer (new_id random) c.email c.name s)

  abbrev pub fetched : Result Customer → Result Customer
  fetched (ok c) = ok c
  fetched (err e) =
      if is no_rows e then err (sentinel customer_not_found) else err (wrapped (str "byID: ") e)

  unfoldable pub by_id : Bytes → S → Result Customer
  by_id id s = fetched (db.select_customer id s)

  -- The loop over the rows, with what was appended to `out` so far.
  abbrev pub scanned :
      List Customer → Option Err → List (Result Customer) → List Customer × Option Err
  scanned out last [] = (out, last)
  scanned out last (ok c ∷ rows) = scanned (out ++ c ∷ []) last rows
  scanned out last (err e ∷ rows) = ([], some (wrapped (str "scan: ") e))

  abbrev pub read_rows : Result Rows → List Customer × Option Err
  read_rows (err e) = ([], some (wrapped (str "list query: ") e))
  read_rows (ok rows) = scanned [] rows.last rows.scans

  unfoldable pub list_page : ℤ → ℤ → S → List Customer × Option Err
  list_page limit offset s =
      read_rows (db.select_page (if ltb_ℤ (pos 0) limit then limit else pos 20) offset s)

  -- `inTx`: the deferred `Rollback` does nothing after a commit that succeeded. The functions run
  -- here do not panic.
  abbrev pub finished : S → Option Err × S → Option Err × S
  finished s (some e, view) = (some e, db.rollback s view)
  finished s (none, view) = db.commit s view

  abbrev pub begun : S → (S → Option Err × S) → Option Err → Option Err × S
  begun s fn (some e) = (some e, s)
  begun s fn none = finished s (fn s)

  unfoldable pub in_tx : (S → Option Err × S) → S → Option Err × S
  in_tx fn s = begun s fn (db.begin s)

  -- From six random bytes.
  abbrev pub campaign_made : Bytes → Option Err × S → Result Bytes × S
  campaign_made id (none, s) = (ok id, s)
  campaign_made id (some e, s) = (err (wrapped (str "create campaign: ") e), s)

  unfoldable pub create_campaign : List ℕ → Bytes → S → Result Bytes × S
  create_campaign random name s =
      campaign_made (str "cmp_" ++ hex random)
        (db.insert_campaign (str "cmp_" ++ hex random) name s)

  -- The `switch` on the state of the error.
  abbrev pub enroll_error : Err → Err
  enroll_error e =
      if has_state foreign_key_violation (as_pg e)
      then sentinel customer_not_found
      else if has_state unique_violation (as_pg e)
      then sentinel customer_conflict
      else wrapped (str "insert enrollment: ") e

  abbrev pub bumped : Option Err × S → Option Err × S
  bumped (none, s) = (none, s)
  bumped (some e, s) = (some (wrapped (str "bump count: ") e), s)

  abbrev pub enrolled : Bytes → Option Err × S → Option Err × S
  enrolled campaign_id (some e, s) = (some (enroll_error e), s)
  enrolled campaign_id (none, s) = bumped (db.bump_count campaign_id s)

  unfoldable pub enroll_customer : (customer_id campaign_id : Bytes) → S → Option Err × S
  enroll_customer customer_id campaign_id s =
      in_tx (λ tx. enrolled campaign_id (db.insert_enrollment customer_id campaign_id tx)) s

  unfoldable pub campaign_enrolled_count : Bytes → S → Result ℕ
  campaign_enrolled_count campaign_id s = db.select_count campaign_id s
