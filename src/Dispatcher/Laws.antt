-- ===== src/Dispatcher/Laws.antt =====
-- How the processing of a notification ends.
use go_learning.Common.{
  ℕ, zero, suc, ◌+◌, ◌<◌, [], ◌∷◌, ◌++◌, Option, none, some, Bool, true, false, if◌then◌else◌, ◌≡◌,
  ◌≢◌, refl, sym, ap, ◌∙◌, arith, inl, inr, Bool-cases, subst,
}
use go_learning.Common.Int.{ℤ, word}
use go_learning.GoErrors.{Err}
use go_learning.Dispatcher.{
  Notification, Settings, State, Course, bump, count_sent, count_failed, count_dead, dead_letter,
  sent_or, wait_before, stopped, attempts, rounds_of, process,
}
use go_learning.Dispatcher.Ends.{
  failures, sent_after, dead_after, Ends, sent_once, failed_once, failures-bump, sent_after-bump,
  dead_after-bump, same_mod,
}

module _ (c : Course) (n : Notification) where
  -- The attempts after a failed one end as all of them do, with one more failure.
  one_more :
      (a m : ℕ) (s t s' : State)
      → c.answers a ≢ none
      → stopped c a ≡ false
      → t.metrics ≡ failed_once s.metrics
      → t.dead ≡ s.dead
      → Ends c n (suc a) m t s'
      → Ends c n a (suc m) s s'
  one_more a m s t s' failed went_on tm td (inl (k, lt, all, ok, on, metrics, dead)) =
      let e : a + suc k ≡ suc a + k = omega arith in
      inl (
        suc k,
        omega arith,
        (failed, went_on, all),
        ap c.answers e ∙ ok,
        ap (stopped c) e ∙ on,
        metrics ∙ ap (sent_after k) tm ∙ sent_after-bump k s.metrics,
        dead ∙ td,
      )
  one_more a m s t s' failed went_on tm td (inr (inl (all, metrics, dead))) = inr (
      inl (
        (failed, went_on, all),
        metrics ∙ ap (dead_after m) tm ∙ dead_after-bump m s.metrics,
        dead ∙ ap (λ d. if c.dropped then d else d ++ n ∷ []) td,
      ))
  one_more a m s t s' failed went_on tm td (inr (inr (k, lt, all, on, metrics, dead))) =
      let e : a + suc k ≡ suc a + k = omega arith in
      inr (
        inr (
          suc k,
          omega arith,
          (failed, went_on, all),
          ap (stopped c) e ∙ on,
          metrics ∙ ap (failures k) tm ∙ failures-bump k s.metrics,
          dead ∙ td,
        ))

  pub waited :
      (base : ℤ) (a : ℕ) (s : State)
      → ((wait_before base a s).metrics ≡ s.metrics) × ((wait_before base a s).dead ≡ s.dead)
  waited base zero s = (refl, refl)
  waited base (suc a) s = (refl, refl)

  dead_letter_lem :
      (s : State)
      → s.metrics.failed < word
      → ((dead_letter c n s).metrics ≡ dead_after 0 s.metrics)
        × ((dead_letter c n s).dead ≡ (if c.dropped then s.dead else s.dead ++ n ∷ []))
  unfolding dead_letter
  dead_letter_lem s h = split c.dropped
    where
      counted : (count_dead s).metrics ≡ dead_after 0 s.metrics
      counted = λ i. record {
        sent = s.metrics.sent;
        failed = same_mod s.metrics.failed h i;
        dead_lettered = bump s.metrics.dead_lettered;
      }

      split :
          (b : Bool)
          → let s' =
              if b then count_dead s else record (count_dead s) { dead = s.dead ++ n ∷ [] } in
            (s'.metrics ≡ dead_after 0 s.metrics)
            × (s'.dead ≡ (if b then s.dead else s.dead ++ n ∷ []))
      split true = (counted, refl)
      split false = (counted, refl)

  pub attempts_stop :
      (base : ℤ) (m a : ℕ) (s : State) → stopped c a ≡ true → attempts base c n (suc m) a s ≡ s
  unfolding attempts
  attempts_stop base m a s stops = rw stops

  pub attempts_try :
      (base : ℤ) (m a : ℕ) (s : State)
      → stopped c a ≡ false
      → attempts base c n (suc m) a s
        ≡ sent_or
            (wait_before base a s)
            (c.answers a)
            (attempts base c n m (suc a) (count_failed (wait_before base a s)))
  unfolding attempts
  attempts_try base m a s on = rw on

  attempts-Ends :
      (base : ℤ) (m a : ℕ) (s : State)
      → s.metrics.failed < word
      → Ends c n a m s (attempts base c n m a s)
  unfolding attempts
  attempts-Ends base zero a s h =
      let (counted, queued) = dead_letter_lem s h in inr (inl (tt, counted, queued))
  attempts-Ends base (suc m) a s h = elim (Bool-cases (stopped c a)) [
    | inl stops ↦
        let e : a + 0 ≡ a = omega arith in
        subst (λ t. Ends c n a (suc m) s t) (sym (attempts_stop base m a s stops))
          (inr (inr (0, omega arith, tt, ap (stopped c) e ∙ stops, kept, refl)))
    | inr on ↦
        subst (λ t. Ends c n a (suc m) s t) (sym (attempts_try base m a s on))
          (tried on
            (attempts-Ends base m (suc a) (count_failed (wait_before base a s)) (omega arith))
            (c.answers a) refl)
  ]
    where
      s₁ : State
      s₁ = wait_before base a s

      kept : s.metrics ≡ failures 0 s.metrics
      kept = λ i. record {
        sent = s.metrics.sent;
        failed = same_mod s.metrics.failed h i;
        dead_lettered = s.metrics.dead_lettered;
      }

      delivered : (count_sent s₁).metrics ≡ sent_after 0 s.metrics
      delivered = ap sent_once (waited base a s).0 ∙ (λ i. record {
        sent = bump s.metrics.sent;
        failed = same_mod s.metrics.failed h i;
        dead_lettered = s.metrics.dead_lettered;
      })

      clash : {err : Err} → some err ≡ none → ⊥
      clash p = cc

      tried :
          stopped c a ≡ false
          → Ends c n (suc a) m (count_failed s₁) (attempts base c n m (suc a) (count_failed s₁))
          → (answer : Option Err) → c.answers a ≡ answer
          → Ends c n a (suc m) s (sent_or s₁ answer (attempts base c n m (suc a) (count_failed s₁)))
      tried on ih none ok =
          let e : a + 0 ≡ a = omega arith in
          inl (
            0,
            omega arith,
            tt,
            ap c.answers e ∙ ok,
            ap (stopped c) e ∙ on,
            delivered,
            (waited base a s).1,
          )
      tried on ih (some err) fails =
          one_more a m s (count_failed s₁) (attempts base c n m (suc a) (count_failed s₁))
            (λ none_eq. clash (sym fails ∙ none_eq)) on (ap failed_once (waited base a s).0)
            (waited base a s).1 ih

-- Processing a notification, with the counter of failures below 2^64, ends in one of three ways,
-- for any answers of the sender and any point at which the context ends. Either the first `k` sends
-- fail and the next one succeeds, with `k` below `maxAttempts`: then one more is counted as sent
-- and `k` more as failed. Or all `maxAttempts` sends fail: then so many more are counted as failed
-- and one as dead-lettered, and the notification joins the dead letters unless the context ends
-- while it waits for room. Or the context ends before attempt `k`, after `k` failures, which are
-- counted. Nothing else changes in the counters and the dead letters. With `maxAttempts` 0 or less,
-- no send is made.
pub process-Ends :
    (d : Settings) (c : Course) (n : Notification) (s : State)
    → s.metrics.failed < word
    → Ends c n 0 (rounds_of d.max_attempts) s (process d c n s)
unfolding process
process-Ends d c n s h = attempts-Ends c n d.base_backoff (rounds_of d.max_attempts) 0 s h
