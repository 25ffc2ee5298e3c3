-- ===== src/GoErrors/Traverse.antt =====
-- The traversals of an error's tree, against the list of what stands in it.
use mathlib.Core.List.{head?}
use go_learning.Common.{List, [], ◌∷◌, ◌++◌, ◌≡◌, refl, Bytes}
use go_learning.GoErrors.{
  Err, Errs, sentinel, text, validation, coded, wrapped, join, pg, rpc, nil, cons, or_else,
  as_coded, as_coded_any,
}

-- All codes of an error's tree, in the order of `Unwrap`.
mutual
  pub codes : Err → List Bytes
  codes (coded c e) = c ∷ codes e
  codes (wrapped p e) = codes e
  codes (join es) = codes_any es
  codes _ = []

  pub codes_any : Errs → List Bytes
  codes_any nil = []
  codes_any (cons e es) = codes e ++ codes_any es

head?-append : (xs ys : List Bytes) → head? (xs ++ ys) ≡ or_else (head? xs) (head? ys)
unfolding or_else
head?-append [] ys = refl
head?-append (x ∷ xs) ys = refl

mutual
  unfolding as_coded codes

  as_coded_first : (e : Err) → as_coded e ≡ head? (codes e)
  as_coded_first (coded c e) = refl
  as_coded_first (wrapped p e) = as_coded_first e
  as_coded_first (join es) = as_coded_any_first es
  as_coded_first (sentinel s) = refl
  as_coded_first (text t) = refl
  as_coded_first (validation f m) = refl
  as_coded_first (pg c m) = refl
  as_coded_first (rpc c m) = refl

  as_coded_any_first : (es : Errs) → as_coded_any es ≡ head? (codes_any es)
  as_coded_any_first nil = refl
  as_coded_any_first (cons e es) =
      rw (head?-append (codes e) (codes_any es), as_coded_first e, as_coded_any_first es)

pub as_coded-codes : (e : Err) → as_coded e ≡ head? (codes e)
as_coded-codes e = as_coded_first e
