-- ===== src/Welcome/Retrying.antt =====
-- How `SendWithRetry` ends.
use go_learning.Common.{
  ℕ, zero, suc, ◌+◌, ◌<◌, Option, none, some, ◌++◌, ◌≡◌, ◌≢◌, ◌⊎◌, refl, sym, ap, ◌∙◌, subst, inl,
  inr, arith, Option-cases,
}
use go_learning.Common.Int.{ℤ, pos, negsuc}
use go_learning.GoErrors.{Err, str, text, message}
use go_learning.Welcome.{
  Retried, returned, panicked, exhausted, after_send, retry, rounds_of, send_with_retry,
}

module _ (answers done : ℕ → Option Err) where
  -- `m` attempts from `a` on failed, with the context not done after any of them.
  abbrev pub AllFailed : ℕ → ℕ → Type 0
  AllFailed a zero = Unit
  AllFailed a (suc m) = (answers a ≢ none) × (done a ≡ none) × AllFailed (suc a) m

  -- The error that the variable holds after `m` attempts from `a` on.
  abbrev pub last_error : ℕ → ℕ → Option Err → Option Err
  last_error a zero last = last
  last_error a (suc m) last = last_error (suc a) m (answers a)

  -- What the function makes of the last error, when all attempts were used up.
  abbrev pub UsedUp : Option Err → Retried → Type 0
  UsedUp last out =
      ((last ≡ none) × (out ≡ panicked))
      ⊎ ((e : Err) × (last ≡ some e)
          × (out ≡ returned (some (text (str "exhausted retries: " ++ message e)))))

  exhausted-UsedUp : (last : Option Err) → UsedUp last (exhausted last)
  unfolding exhausted
  exhausted-UsedUp none = inl (refl, refl)
  exhausted-UsedUp (some e) = inr (e, refl, refl)

  abbrev pub RetryEnds : ℕ → ℕ → Option Err → Retried → Type 0
  RetryEnds m a last out =
      ((k : ℕ) × (k < m) × AllFailed a k × (answers (a + k) ≡ none) × (out ≡ returned none))
      ⊎ ((k : ℕ) × (ended : Err) × (k < m)
          × AllFailed a k
          × (answers (a + k) ≢ none)
          × (done (a + k) ≡ some ended)
          × (out ≡ returned (some ended)))
      ⊎ (AllFailed a m × UsedUp (last_error a m last) out)

  one_more :
      (m a : ℕ) (last : Option Err) (out : Retried)
      → answers a ≢ none
      → done a ≡ none
      → RetryEnds m (suc a) (answers a) out
      → RetryEnds (suc m) a last out
  one_more m a last out failed on (inl (k, lt, all, sent, e)) =
      let eq : suc a + k ≡ a + suc k = omega arith in
      inl (suc k, omega arith, (failed, on, all), subst (λ j. answers j ≡ none) eq sent, e)
  one_more m a last out failed on (inr (inl (k, ended, lt, all, fails, over, e))) =
      let eq : suc a + k ≡ a + suc k = omega arith in
      inr (
        inl (
          suc k,
          ended,
          omega arith,
          (failed, on, all),
          subst (λ j. answers j ≢ none) eq fails,
          subst (λ j. done j ≡ some ended) eq over,
          e,
        ))
  one_more m a last out failed on (inr (inr (all, e))) = inr (inr ((failed, on, all), e))

  retry-RetryEnds : (m a : ℕ) (last : Option Err) → RetryEnds m a last (retry answers done m a last)
  unfolding retry
  retry-RetryEnds zero a last = inr (inr (tt, exhausted-UsedUp last))
  retry-RetryEnds (suc m) a last =
      let rest = retry answers done m (suc a) (answers a) in
      let ih = retry-RetryEnds m (suc a) (answers a) in
      let here : a + 0 ≡ a = omega arith in
      elim (Option-cases (answers a)) [
        | inl sent ↦
            inl (
              0,
              omega arith,
              tt,
              ap answers here ∙ sent,
              ap (λ o. after_send o (done a) rest) sent,
            )
        | inr (e, fails) ↦ elim (Option-cases (done a)) [
          | inl on ↦
              subst (λ out. RetryEnds (suc m) a last out)
                (sym (
                  ap (λ o. after_send o (done a) rest) fails
                  ∙ ap (λ d. after_send (some e) d rest) on))
                (one_more m a last rest (λ p. clash e (sym fails ∙ p)) on ih)
          | inr (ended, over) ↦ inr (
              inl (
                0,
                ended,
                omega arith,
                tt,
                (λ p. clash e (sym fails ∙ sym (ap answers here) ∙ p)),
                ap done here ∙ over,
                ap (λ o. after_send o (done a) rest) fails
                    ∙ ap (λ d. after_send (some e) d rest) over,
              ))
        ]
      ]
    where
      clash : (e : Err) → some e ≡ none → ⊥
      clash e p = cc

  -- `SendWithRetry` returns nil after the first send that succeeds; the context's error when the
  -- context is done after a failed send; and otherwise, when all `maxAttempts` sends fail, the error
  -- "exhausted retries: " and the text of the last one's. With `maxAttempts` 0 or less there is no last
  -- error, and it panics.
  pub send_with_retry-RetryEnds :
      (max_attempts : ℤ)
      → RetryEnds (rounds_of max_attempts) 0 none (send_with_retry answers done max_attempts)
        × ((n : ℕ) → (send_with_retry answers done (negsuc n) ≡ panicked))
        × (send_with_retry answers done (pos 0) ≡ panicked)
  unfolding send_with_retry exhausted
  send_with_retry-RetryEnds max_attempts =
      (retry-RetryEnds (rounds_of max_attempts) 0 none, (λ n. refl), refl)
