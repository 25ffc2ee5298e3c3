-- ===== src/Pipeline/Kept.antt =====
-- The invariant of `Run`, kept by each step of a goroutine.
use go_learning.Common.{
  ℕ, ◌<◌, ◌≤◌, List, [], ◌∷◌, ◌++◌, Option, none, some, true, false, All, num_comparable, ◌≡◌, ◌⊎◌,
  refl, ap, ◌∙◌, subst, inl, inr, arith,
}
use go_learning.GoErrors.{Err, or_else, Result, ok, err}
use go_learning.Pipeline.{
  State, start, Step, feed, all_fed, stop_feeding, succeed, fail, receive, give_up, cancel_parent,
  Reaches, started, next,
}
use go_learning.Pipeline.Accounting.{times, times-append, Accounted, Step-Accounted}

All-remove :
    {A : Type 0} (P : A → Type 0) (xs : List A) (x : A) (ys : List A)
    → All P (xs ++ x ∷ ys)
    → P x × All P (xs ++ ys)
All-remove P [] x ys (h, hs) = (h, hs)
All-remove P (z ∷ xs) x ys (h, hs) = let (here, rest) = All-remove P xs x ys hs in (here, (h, rest))

module _ {R : Type 0} (work : ℕ → Result R) (n workers : ℕ) where
  abbrev pub IsRight : ℕ × R → Type 0
  IsRight p = work p.0 ≡ ok p.1

  -- The error that is kept is one of an item.
  abbrev pub Cause : Option Err → Type 0
  Cause none = Unit
  Cause (some e) = (i : ℕ) × (i < n) × (work i ≡ err e)

  pub record Inv (s : State R) : Type 0 where
    pub accounted : Accounted work n workers s
    pub fed_le : s.fed ≤ n
    pub right_ready : All IsRight s.ready
    pub right_results : All IsRight s.results
    pub cause : Cause s.failed
    pub why : (s.cancelled ≡ false) ⊎ (s.parent ≡ true) ⊎ ((e : Err) × (s.failed ≡ some e))
    pub whole : (s.lost ≡ []) ⊎ (s.cancelled ≡ true)
    pub ended : (s.closed ≡ false) ⊎ (s.fed ≡ n) ⊎ (s.cancelled ≡ true)

  kept :
      (o : Option Err) (i : ℕ) (e : Err)
      → i < n
      → work i ≡ err e
      → Cause o
      → Cause (or_else o (some e))
  unfolding or_else
  kept none i e lt w c = (i, lt, w)
  kept (some x) i e lt w c = c

  some_error : (o : Option Err) (e : Err) → (x : Err) × (or_else o (some e) ≡ some x)
  unfolding or_else
  some_error none e = (e, refl)
  some_error (some x) e = (x, refl)

  busy-lt :
      (s : State R) (xs : List ℕ) (i : ℕ) (ys : List ℕ)
      → Accounted work n workers s
      → s.busy ≡ xs ++ i ∷ ys
      → s.fed ≤ n
      → i < n
  busy-lt s xs i ys h e le =
      let at : times i s.busy ≡ times i (i ∷ (xs ++ ys)) =
        ap (times i) e ∙ times-append i xs i ys in
      ground (arith, h i)

  split_ready :
      (s : State R) (xs ys : List (ℕ × R)) (i : ℕ) (x : R)
      → s.ready ≡ xs ++ (i, x) ∷ ys
      → All IsRight s.ready
      → IsRight (i, x) × All IsRight (xs ++ ys)
  split_ready s xs ys i x e h = All-remove IsRight xs (i, x) ys (subst (All IsRight) e h)

  Step-Inv : {s t : State R} → Step work n workers s t → Inv s → Inv t
  Step-Inv {s} (feed lt on free) v = record {
    accounted = Step-Accounted work n workers (feed {s = s} lt on free) v.accounted;
    fed_le = lt;
    right_ready = v.right_ready;
    right_results = v.right_results;
    cause = v.cause;
    why = v.why;
    whole = v.whole;
    ended = inl on;
  }
  Step-Inv {s} (all_fed on e) v = record {
    accounted = v.accounted;
    fed_le = v.fed_le;
    right_ready = v.right_ready;
    right_results = v.right_results;
    cause = v.cause;
    why = v.why;
    whole = v.whole;
    ended = inr (inl e);
  }
  Step-Inv {s} (stop_feeding on c) v = record {
    accounted = v.accounted;
    fed_le = v.fed_le;
    right_ready = v.right_ready;
    right_results = v.right_results;
    cause = v.cause;
    why = v.why;
    whole = v.whole;
    ended = inr (inr c);
  }
  Step-Inv {s} (succeed xs ys i x e w) v = record {
    accounted = Step-Accounted work n workers (succeed {s = s} xs ys i x e w) v.accounted;
    fed_le = v.fed_le;
    right_ready = (w, v.right_ready);
    right_results = v.right_results;
    cause = v.cause;
    why = v.why;
    whole = v.whole;
    ended = v.ended;
  }
  Step-Inv {s} (fail xs ys i x e w) v = record {
    accounted = Step-Accounted work n workers (fail {s = s} xs ys i x e w) v.accounted;
    fed_le = v.fed_le;
    right_ready = v.right_ready;
    right_results = v.right_results;
    cause = kept s.failed i x (busy-lt s xs i ys v.accounted e v.fed_le) w v.cause;
    why = inr (inr (some_error s.failed x));
    whole = inr refl;
    ended = inr (inr refl);
  }
  Step-Inv {s} (receive xs ys i x e) v = record {
    accounted = Step-Accounted work n workers (receive {s = s} xs ys i x e) v.accounted;
    fed_le = v.fed_le;
    right_ready = (split_ready s xs ys i x e v.right_ready).1;
    right_results = ((split_ready s xs ys i x e v.right_ready).0, v.right_results);
    cause = v.cause;
    why = v.why;
    whole = v.whole;
    ended = v.ended;
  }
  Step-Inv {s} (give_up xs ys i x c e) v = record {
    accounted = Step-Accounted work n workers (give_up {s = s} xs ys i x c e) v.accounted;
    fed_le = v.fed_le;
    right_ready = (split_ready s xs ys i x e v.right_ready).1;
    right_results = v.right_results;
    cause = v.cause;
    why = v.why;
    whole = inr c;
    ended = v.ended;
  }

  cancelled-Inv : {s : State R} → Inv s → Inv (record s { cancelled = true; parent = true })
  cancelled-Inv {s} v = record {
    accounted = v.accounted;
    fed_le = v.fed_le;
    right_ready = v.right_ready;
    right_results = v.right_results;
    cause = v.cause;
    why = inr (inl refl);
    whole = inr refl;
    ended = inr (inr refl);
  }

  start-Inv : Inv start
  start-Inv = record {
    accounted = λ j. ground arith;
    fed_le = omega arith;
    right_ready = tt;
    right_results = tt;
    cause = tt;
    why = inl refl;
    whole = inl refl;
    ended = inl refl;
  }

  pub Reaches-Inv : {s : State R} → Reaches work n workers s → Inv s
  Reaches-Inv started = start-Inv
  Reaches-Inv (next r step) = Step-Inv step (Reaches-Inv r)
  Reaches-Inv (cancel_parent r on) = cancelled-Inv (Reaches-Inv r)
