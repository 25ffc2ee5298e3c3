-- ===== src/Dispatcher/Running/Rounds.antt =====
-- The rounds of a worker against the loop of `process`.
use go_learning.Common.{
  ℕ, zero, suc, ◌+◌, ◌≤◌, [], ◌∷◌, ◌++◌, Option, none, some, Bool, true, false, ltb, ◌≡◌, refl, sym,
  ap, ◌∙◌, subst, inl, inr, arith, if◌then◌else◌,
}
use go_learning.GoErrors.{Err}
use go_learning.Dispatcher.{
  Notification, Metrics, bump, Settings, State, count_failed, dead_letter, sent_or, wait_before,
  stopped, attempts, rounds_of,
}
use go_learning.Dispatcher.Laws.{waited, attempts_stop, attempts_try}
use go_learning.Dispatcher.Running.{
  sending, backing, exhausted, offering, Shared, at_attempt, with_failed, with_dead_lettered,
}
use go_learning.Dispatcher.Running.Processing.{course_of, Agrees, Late, tries, Loops, Sends, Does}

module _ (d : Settings) (send : ℕ → ℕ → Option Err) (n : ℕ) (note : Notification) where
  stopped-Late :
      (answers : ℕ → Option Err) (stop : Option ℕ) (dropped : Bool) (a : ℕ)
      → Late (suc a) stop
      → stopped (course_of answers stop dropped) a ≡ false
  stopped-Late answers none dropped zero late = refl
  stopped-Late answers none dropped (suc a) late = refl
  stopped-Late answers (some j) dropped zero late = refl
  stopped-Late answers (some j) dropped (suc a) late = ground arith

  stopped-here :
      (answers : ℕ → Option Err) (dropped : Bool) (a : ℕ)
      → 1 ≤ a
      → stopped (course_of answers (some a) dropped) a ≡ true
  stopped-here answers dropped zero le = absurd (omega arith)
  stopped-here answers dropped (suc a) le = ground arith

  Late-earlier : (a : ℕ) (stop : Option ℕ) → Late (suc a) stop → Late a stop
  Late-earlier a none late = tt
  Late-earlier a (some j) late = omega arith

  -- Only the dead letters at the start matter.
  Agrees-start :
      (i : ℕ) (x y : Shared) (s s' t : State)
      → s'.dead ≡ s.dead
      → Agrees note i x y s' t
      → Agrees note i x y s t
  Agrees-start i x y s s' t dead (m, inl (k, l)) = (m, inl (k, l ∙ dead))
  Agrees-start i x y s s' t dead (m, inr (k, l)) = (m, inr (k, l ∙ ap (λ ds. ds ++ note ∷ []) dead))

  -- A wait that is over leads to the send.
  pub Sends-Loops :
      (i a m : ℕ) (x y : Shared)
      → Sends d send n note i a m x y
      → Loops d send n note i a (suc m) x y
  unfolding Sends Loops
  Sends-Loops i a m x y sends s same =
      let s' = wait_before d.base_backoff a s in
      let (metrics, dead) = waited (course_of (send i) none false) note d.base_backoff a s in
      let (stop, dropped, late, agrees) = sends s' (metrics ∙ same) in
      let c = course_of (send i) stop dropped in
      let e =
        attempts_try c note d.base_backoff m a s (stopped-Late (send i) stop dropped a late) in
      (
        stop,
        dropped,
        Late-earlier a stop late,
        Agrees-start i x y s s' (tries d send n note c (suc m) a s) dead
            (subst (Agrees note i x y s') (sym e) agrees),
      )

  -- The context ends during a wait.
  pub stops-Loops :
      (i a m : ℕ) (x y : Shared)
      → 1 ≤ a
      → y.metrics ≡ x.metrics
      → y.dead ≡ x.dead
      → Loops d send n note i a (suc m) x y
  unfolding Loops
  stops-Loops i a m x y le metrics dead s same =
      let c = course_of (send i) (some a) false in
      (
        some a,
        false,
        omega arith,
        subst (Agrees note i x y s)
            (sym (attempts_stop c note d.base_backoff m a s (stopped-here (send i) false a le)))
            (metrics ∙ sym same, inl (dead, refl)),
      )

  -- A send that succeeds, and one that fails.
  pub ok-Sends :
      (i a m : ℕ) (x y : Shared)
      → send i a ≡ none
      → y.metrics ≡ (record x.metrics { sent = bump x.metrics.sent })
      → y.dead ≡ x.dead
      → Sends d send n note i a m x y
  unfolding Sends
  ok-Sends i a m x y ok metrics dead s same = (
    none,
    false,
    tt,
    subst
        (λ (o : Option Err). Agrees note i x y s (
          sent_or s o
            (tries d send n note (course_of (send i) none false) m (suc a) (count_failed s))))
        (sym ok)
        (
          metrics ∙ ap (λ (k : Metrics). record k { sent = bump k.sent }) (sym same),
          inl (dead, refl),
        ),
  )

  pub fails-Sends :
      (i a m : ℕ) (x x' y : Shared) (err : Err)
      → send i a ≡ some err
      → x'.metrics ≡ with_failed x.metrics
      → x'.dead ≡ x.dead
      → Loops d send n note i (suc a) m x' y
      → Sends d send n note i a m x y
  unfolding Sends Loops
  fails-Sends i a m x x' y err fails metrics dead loops s same =
      let (stop, dropped, late, agrees) =
        loops (count_failed s) (ap with_failed same ∙ sym metrics) in
      (
        stop,
        dropped,
        late,
        subst
            (λ (o : Option Err). Agrees note i x y s (
              sent_or s o
                (tries d send n note (course_of (send i) stop dropped) m (suc a) (count_failed s))))
            (sym fails)
            (from_x'
              (tries d send n note (course_of (send i) stop dropped) m (suc a) (count_failed s))
              agrees),
      )
    where
      from_x' : (t : State) → Agrees note i x' y (count_failed s) t → Agrees note i x y s t
      from_x' t (k, inl (p, q)) = (k, inl (p ∙ dead, q))
      from_x' t (k, inr (p, q)) = (k, inr (p ∙ ap (λ l. i ∷ l) dead, q))

  -- The dead letter is counted, and then offered or not.
  pub exhausted-Loops :
      (i a : ℕ) (x x' y : Shared)
      → x'.metrics ≡ with_dead_lettered x.metrics
      → x'.dead ≡ x.dead
      → Does d send n note (offering i) x' y
      → Loops d send n note i a 0 x y
  unfolding Loops attempts dead_letter
  exhausted-Loops i a x x' y metrics dead (same_metrics, inl unchanged) s same = (
    none,
    true,
    tt,
    (same_metrics ∙ metrics ∙ ap with_dead_lettered (sym same), inl (unchanged ∙ dead, refl)),
  )
  exhausted-Loops i a x x' y metrics dead (same_metrics, inr offered) s same = (
    none,
    false,
    tt,
    (
      same_metrics ∙ metrics ∙ ap with_dead_lettered (sym same),
      inr (offered ∙ ap (λ l. i ∷ l) dead, refl),
    ),
  )

  -- The head of the loop: a round, or the end after the last one.
  pub at_attempt-Loops :
      (i a m : ℕ) (x y : Shared)
      → a + m ≡ (rounds_of d.max_attempts)
      → Does d send n note (at_attempt (rounds_of d.max_attempts) i a) x y
      → Loops d send n note i a m x y
  at_attempt-Loops i zero zero x y e h =
      let no : ltb 0 (rounds_of d.max_attempts) ≡ false = ground arith in
      let h' : Does d send n note (exhausted i) x y =
        subst (λ b. Does d send n note (if b then sending i 0 else exhausted i) x y) no h in
      h' 0
  at_attempt-Loops i (suc a) zero x y e h =
      let no : ltb (suc a) (rounds_of d.max_attempts) ≡ false = ground arith in
      let h' : Does d send n note (exhausted i) x y =
        subst (λ b. Does d send n note (if b then backing i (suc a) else exhausted i) x y) no h in
      h' (suc a)
  at_attempt-Loops i zero (suc m) x y e h =
      let yes : ltb 0 (rounds_of d.max_attempts) ≡ true = ground arith in
      let h' : Does d send n note (sending i 0) x y =
        subst (λ b. Does d send n note (if b then sending i 0 else exhausted i) x y) yes h in
      Sends-Loops i 0 m x y (h' m e)
  at_attempt-Loops i (suc a) (suc m) x y e h =
      let yes : ltb (suc a) (rounds_of d.max_attempts) ≡ true = ground arith in
      let h' : Does d send n note (backing i (suc a)) x y =
        subst (λ b. Does d send n note (if b then backing i (suc a) else exhausted i) x y) yes h in
      h' m e (omega arith)
