-- ===== src/PgCustomer/Mapping.antt =====
-- What `List` makes of the rows.
use go_learning.Common.{
  List, [], ◌∷◌, ◌++◌, map, Option, some, ◌≡◌, ◌⊎◌, refl, sym, ap, ◌∙◌, inl, inr, if◌then◌else◌,
}
use mathlib.Core.List.{append_assoc, append-nil}
use go_learning.Common.Int.{ℤ, pos, ltb_ℤ}
use go_learning.GoErrors.{str, Err, wrapped, Result, ok, err}
use go_learning.PgCustomer.Repo.{Customer, Db, Rows, scanned, read_rows, list_page}

-- Every row was scanned, or `cs` were before the first one that was not.
abbrev pub AllScanned : List (Result Customer) → List Customer → Type 0
AllScanned rows cs = rows ≡ map ok cs

abbrev pub FirstFailure : List (Result Customer) → Err → Type 0
FirstFailure rows e =
    (cs : List Customer) × (rest : List (Result Customer)) × (rows ≡ map ok cs ++ err e ∷ rest)

-- What the caller gets for the rows of a query.
abbrev pub Listed : Result Rows → List Customer × Option Err → Type 0
Listed (err e) out = out ≡ ([], some (wrapped (str "list query: ") e))
Listed (ok rows) out =
    ((cs : List Customer) × AllScanned rows.scans cs × (out ≡ (cs, rows.last)))
    ⊎ ((e : Err) × FirstFailure rows.scans e × (out ≡ ([], some (wrapped (str "scan: ") e))))

module _ {S : Type 0} (db : Db S) where
  scanned-Listed :
      (out : List Customer) (last : Option Err) (rows : List (Result Customer))
      → ((cs : List Customer) × AllScanned rows cs × (scanned db out last rows ≡ (out ++ cs, last)))
        ⊎ ((e : Err) × FirstFailure rows e
            × (scanned db out last rows ≡ ([], some (wrapped (str "scan: ") e))))
  scanned-Listed out last [] = inl ([], refl, ap (λ cs. (cs, last)) (sym (append-nil out)))
  scanned-Listed out last (err e ∷ rows) = inr (e, ([], rows, refl), refl)
  scanned-Listed out last (ok c ∷ rows) = elim (scanned-Listed (out ++ c ∷ []) last rows) [
    | inl (cs, all, e) ↦
        inl (c ∷ cs, ap (λ r. ok c ∷ r) all, e ∙ ap (λ l. (l, last)) (append_assoc out (c ∷ []) cs))
    | inr (x, (cs, rest, first), e) ↦ inr (x, (c ∷ cs, rest, ap (λ r. ok c ∷ r) first), e)
  ]

  -- `List` asks for 20 customers when the limit is not positive. It returns the customers of all
  -- rows, in the order of the query, with the error that the rows ended by; but if a row does not
  -- scan, or the query fails, it returns no customer and that error, the first of them.
  pub list_page-Listed :
      (limit offset : ℤ) (s : S)
      → Listed
          (db.select_page (if ltb_ℤ (pos 0) limit then limit else pos 20) offset s)
          (list_page db limit offset s)
  unfolding list_page
  list_page-Listed limit offset s =
      go (db.select_page (if ltb_ℤ (pos 0) limit then limit else pos 20) offset s)
    where
      go : (o : Result Rows) → Listed o (read_rows db o)
      go (err e) = refl
      go (ok rows) = scanned-Listed [] rows.last rows.scans
