-- ===== src/Bus/Calls.antt =====
-- The calls of the workers' functions, against the payloads that were handed out.
use mathlib.Core.List.{Perm, perm_middle, append-nil}
use mathlib.Core.List.Perm
use go_learning.Common.{
  ℕ, ◌≤◌, List, [], ◌∷◌, ◌++◌, map, Option, none, some, All, Bytes, ◌≡◌, inl, inr, refl, sym, ap,
  ◌∙◌, subst, arith,
}
use go_learning.Pipeline.Accounting.{times}
use go_learning.Bus.{Callback, on_message}
use go_learning.Bus.Group.{Member, Handled, nothing_left, hand_over, lose}

module _ {T : Type 0} (unmarshal : Bytes → Option T) where
  -- The calls of the workers' functions, the latest first.
  abbrev pub Log : Type 0
  Log = List (ℕ × T)

  abbrev pub worker_logs : ℕ → T → Log → Log
  worker_logs w v log = (w, v) ∷ log

  abbrev pub logging : ℕ → Callback Log
  logging w = on_message unmarshal (worker_logs w)

  abbrev pub consed : Option T → List T → List T
  consed none vs = vs
  consed (some v) vs = v ∷ vs

  -- The payloads that can be decoded.
  abbrev pub decoded : List Bytes → List T
  decoded [] = []
  decoded (d ∷ ds) = consed (unmarshal d) (decoded ds)

  abbrev pub values : Log → List T
  values log = map (λ p. p.1) log

  pub decoded-append : (xs ys : List Bytes) → decoded (xs ++ ys) ≡ decoded xs ++ decoded ys
  decoded-append [] ys = refl
  decoded-append (x ∷ xs) ys =
      ap (consed (unmarshal x)) (decoded-append xs ys) ∙ split (unmarshal x)
    where
      split :
          (o : Option T) → consed o (decoded xs ++ decoded ys) ≡ consed o (decoded xs) ++ decoded ys
      split none = refl
      split (some v) = refl

  in_group :
      (ws : List ℕ) (h : Callback Log)
      → Member (map logging ws) h
      → (w : ℕ) × (h ≡ logging w) × (1 ≤ times w ws)
  in_group [] h m = absurd m
  in_group (w ∷ ws) h (inl e) = (w, e, ground arith)
  in_group (w ∷ ws) h (inr m) = let (v, e, le) = in_group ws h m in (v, e, ground (arith, le))

  abbrev pub InGroup : List ℕ → ℕ × T → Type 0
  InGroup ws p = 1 ≤ times p.0 ws

  abbrev called : ℕ → Option T → Log → Log
  called w none log = log
  called w (some v) log = (w, v) ∷ log

  logging-called :
      (w : ℕ) (d : Bytes) (log : Log) → (logging w d log).0 ≡ called w (unmarshal d) log
  unfolding on_message
  logging-called w d log = split (unmarshal d)
    where
      split :
          (o : Option T)
          → (elim o as (λ x. Log × Option Bytes) [
            | none ↦ (log, none)
            | some v ↦ ((w, v) ∷ log, none)
          ]).0
            ≡ called w o log
      split none = refl
      split (some v) = refl

  called-InGroup :
      (ws : List ℕ) (w : ℕ) (o : Option T) (log : Log)
      → 1 ≤ times w ws
      → All (InGroup ws) log
      → All (InGroup ws) (called w o log)
  called-InGroup ws w none log le h = h
  called-InGroup ws w (some v) log le h = (le, h)

  -- Among the payloads, or among the calls.
  moved :
      (w : ℕ) (o : Option T) (xs ys : List T) (log : Log)
      → Perm ((xs ++ ys) ++ values (called w o log)) ((xs ++ consed o ys) ++ values log)
  moved w none xs ys log = Perm.refl ((xs ++ ys) ++ values log)
  moved w (some v) xs ys log =
      Perm.trans (perm_middle (xs ++ ys) (values log))
        (Perm.append_right (values log) (Perm.symm (perm_middle xs ys)))

  -- A lost payload counts among those that were not handled.
  counted_lost :
      (o : Option T) (xs ys zs vs lost : List T)
      → Perm (vs ++ lost) ((xs ++ ys) ++ zs)
      → Perm (vs ++ consed o lost) ((xs ++ consed o ys) ++ zs)
  counted_lost none xs ys zs vs lost p = p
  counted_lost (some v) xs ys zs vs lost p =
      Perm.trans (perm_middle vs lost)
        (Perm.trans (Perm.cons v p) (Perm.append_right zs (Perm.symm (perm_middle xs ys))))

  -- With those that were lost, the calls are the payloads.
  pub Handled-Perm :
      (ws : List ℕ) {ds : List Bytes} {a b : Log}
      → Handled (map logging ws) ds a b
      → All (InGroup ws) a
      → (lost : List T) × Perm (values b ++ lost) (decoded ds ++ values a) × All (InGroup ws) b
  Handled-Perm ws {a = a} nothing_left within = (
    [],
    subst (λ l. Perm l (values a)) (sym (append-nil (values a))) (Perm.refl (values a)),
    within,
  )
  Handled-Perm ws {ds} {a} {b} (lose xs ys d e rest) within =
      let (lost, perm, all) = Handled-Perm ws rest within in
      (
        consed (unmarshal d) lost,
        subst (λ l. Perm (values b ++ consed (unmarshal d) lost) (l ++ values a))
            (sym (ap decoded e ∙ decoded-append xs (d ∷ ys)))
            (counted_lost (unmarshal d) (decoded xs) (decoded ys) (values a) (values b) lost
              (subst (λ l. Perm (values b ++ lost) (l ++ values a)) (decoded-append xs ys) perm)),
        all,
      )
  Handled-Perm ws {ds} {a} {b} (hand_over xs ys d h e m rest) within =
      let (w, is_w, le) = in_group ws h m in
      let step : (h d a).0 ≡ called w (unmarshal d) a =
        ap (λ g. (g d a).0) is_w ∙ logging-called w d a in
      let (lost, perm, all) =
        Handled-Perm ws rest
          (subst (All (InGroup ws)) (sym step) (called-InGroup ws w (unmarshal d) a le within)) in
      let counted : Perm (values b ++ lost)
          ((decoded xs ++ decoded ys) ++ values (called w (unmarshal d) a)) =
        subst (λ l. Perm (values b ++ lost) (l ++ values (called w (unmarshal d) a)))
          (decoded-append xs ys)
          (subst (λ l. Perm (values b ++ lost) (decoded (xs ++ ys) ++ values l)) step perm) in
      (
        lost,
        subst (λ l. Perm (values b ++ lost) (l ++ values a))
            (sym (ap decoded e ∙ decoded-append xs (d ∷ ys)))
            (Perm.trans counted (moved w (unmarshal d) (decoded xs) (decoded ys) a)),
        all,
      )
