-- ===== src/Dispatcher/Running/Invariant.antt =====
-- The invariant of `Run`, over all workers.
use go_learning.Common.{
  true, ℕ, zero, suc, ◌+◌, ◌%◌, List, ◌∷◌, ◌++◌, Option, false, All, length, length-append,
  num_comparable, ◌≡◌, ◌⊎◌, refl, ap, ◌∙◌, subst, inl, inr, arith,
}
use go_learning.Common.Int.{word, pos_part}
use go_learning.GoErrors.{Err}
use go_learning.Dispatcher.{Settings, rounds_of}
use go_learning.Dispatcher.Running.{
  Phase, selecting, Shared, Running, WorkerStep, HasReturned, RunStep, by_worker, read_dead,
  cancel_context, close_dead, all_selecting, run_start, RunsTo, begin, go,
}
use go_learning.Dispatcher.Running.Kept.{
  holding, amount, tally, tally-at, All-at, All-put, holds, settled, arrived, counts_dead,
  IsWorking, Ended, Whole, IsRight, AllRight,
}
use go_learning.Dispatcher.Running.Worker.{
  Step-amount, Step-settled, Step-sent, Step-dead_lettered, Step-IsRight, Step-Whole,
  Step-IsWorking, Step-Ended, Step-gone,
}

module _ (d : Settings) (send : ℕ → ℕ → Option Err) (n : ℕ) where
  abbrev rounds : ℕ
  rounds = rounds_of d.max_attempts

  pub record Inv (s : Running) : Type 0 where
    pub settled_once :
        (j : ℕ) → settled j s.shared + tally (holds j) s.workers ≡ arrived j s.shared.taken
    pub conserved : amount s.shared + tally holding s.workers ≡ s.shared.taken
    pub sent_counted : s.shared.metrics.sent ≡ length s.shared.sent % word
    pub dead_counted :
        s.shared.metrics.dead_lettered
        ≡ (length s.shared.dead + length s.shared.dropped + tally counts_dead s.workers) % word
    pub right : AllRight send rounds s.shared
    pub phases : All (IsRight send rounds) s.workers
    pub whole : Whole s.shared
    pub going : All IsWorking s.workers ⊎ Ended n s.shared
    pub closing : (s.closed ≡ false) ⊎ All HasReturned s.workers
    pub size : length s.workers ≡ pos_part d.workers

  module _ (s : Running) (ps qs : List Phase) (p : Phase) (x : Shared) (q : Phase)
      (e : s.workers ≡ ps ++ p ∷ qs) (step : WorkerStep send n rounds s.shared p x q)
      (v : Inv s) where
    tally_before : (f : Phase → ℕ) → tally f s.workers ≡ f p + tally f (ps ++ qs)
    tally_before f = ap (tally f) e ∙ tally-at f ps qs p

    others-All : (P : Phase → Type 0) → All P s.workers → P p × All P (ps ++ qs)
    others-All P h = All-at P ps qs p (subst (All P) e h)

    worker_settled : (j : ℕ) → settled j x + tally (holds j) (ps ++ q ∷ qs) ≡ arrived j x.taken
    worker_settled j =
        let before = tally_before (holds j) in
        let after = tally-at (holds j) ps qs q in
        let one = Step-settled j step in let h = v.settled_once j in omega arith

    worker_amount : amount x + tally holding (ps ++ q ∷ qs) ≡ x.taken
    worker_amount =
        let before = tally_before holding in
        let after = tally-at holding ps qs q in
        let one = Step-amount step in let h = v.conserved in omega arith

    worker_dead :
        x.metrics.dead_lettered
        ≡ (length x.dead + length x.dropped + tally counts_dead (ps ++ q ∷ qs)) % word
    worker_dead = rw (tally-at counts_dead ps qs q) (
        Step-dead_lettered (tally counts_dead (ps ++ qs)) step (
          v.dead_counted
          ∙ ap (λ t. (length s.shared.dead + length s.shared.dropped + t) % word)
              (tally_before counts_dead)))

    worker-IsRight : AllRight send rounds x × IsRight send rounds q
    worker-IsRight = Step-IsRight step v.right (others-All (IsRight send rounds) v.phases).0

    worker_going : All IsWorking (ps ++ q ∷ qs) ⊎ Ended n x
    worker_going = elim v.going [
      | inr ended ↦ inr (Step-Ended step ended)
      | inl all ↦ elim (Step-IsWorking step) [
        | inr ended ↦ inr ended
        | inl on ↦ inl (All-put IsWorking ps qs q on (others-All IsWorking all).1)
      ]
    ]

    worker_open : s.closed ≡ false
    worker_open = elim v.closing [
      | inl on ↦ on
      | inr all ↦ absurd (Step-gone step (others-All HasReturned all).0)
    ]

    worker_size : length (ps ++ q ∷ qs) ≡ pos_part d.workers
    worker_size =
        let a = length-append ps (p ∷ qs) in
        let b = length-append ps (q ∷ qs) in let c = ap length e in let h = v.size in omega arith

    worker-Inv : Inv (record s { shared = x; workers = ps ++ q ∷ qs })
    worker-Inv = record {
      settled_once = worker_settled;
      conserved = worker_amount;
      sent_counted = Step-sent step v.sent_counted;
      dead_counted = worker_dead;
      right = worker-IsRight.0;
      phases =
          All-put (IsRight send rounds) ps qs q worker-IsRight.1
            (others-All (IsRight send rounds) v.phases).1;
      whole = Step-Whole step v.whole;
      going = worker_going;
      closing = inl worker_open;
      size = worker_size;
    }

  RunStep-Inv : {s t : Running} → RunStep send n rounds s t → Inv s → Inv t
  RunStep-Inv {s} (by_worker ps qs p x q e step) v = worker-Inv s ps qs p x q e step v
  RunStep-Inv {s} (read_dead more) v = record {
    settled_once = v.settled_once;
    conserved = v.conserved;
    sent_counted = v.sent_counted;
    dead_counted = v.dead_counted;
    right = v.right;
    phases = v.phases;
    whole = v.whole;
    going = v.going;
    closing = v.closing;
    size = v.size;
  }
  RunStep-Inv {s} (close_dead on all) v = record {
    settled_once = v.settled_once;
    conserved = v.conserved;
    sent_counted = v.sent_counted;
    dead_counted = v.dead_counted;
    right = v.right;
    phases = v.phases;
    whole = v.whole;
    going = v.going;
    closing = inr all;
    size = v.size;
  }

  cancelled-Inv :
      {s : Running} → Inv s → Inv (record s { shared = record s.shared { cancelled = true } })
  cancelled-Inv {s} v = record {
    settled_once = v.settled_once;
    conserved = v.conserved;
    sent_counted = v.sent_counted;
    dead_counted = v.dead_counted;
    right = v.right;
    phases = v.phases;
    whole = inr refl;
    going = inr (inr refl);
    closing = v.closing;
    size = v.size;
  }

  length-all_selecting : (w : ℕ) → length (all_selecting w) ≡ w
  length-all_selecting zero = refl
  length-all_selecting (suc w) = omega (arith, length-all_selecting w)

  tally-all_selecting : (f : Phase → ℕ) → f selecting ≡ 0 → (w : ℕ) → tally f (all_selecting w) ≡ 0
  tally-all_selecting f h zero = refl
  tally-all_selecting f h (suc w) = omega (arith, h, tally-all_selecting f h w)

  All-all_selecting : (P : Phase → Type 0) → P selecting → (w : ℕ) → All P (all_selecting w)
  All-all_selecting P h zero = tt
  All-all_selecting P h (suc w) = (h, All-all_selecting P h w)

  run_start-Inv : Inv (run_start d)
  unfolding run_start
  run_start-Inv =
      let w = pos_part d.workers in
      record {
        settled_once = λ j. let h = tally-all_selecting (holds j) refl w in ground arith;
        conserved = let h = tally-all_selecting holding refl w in omega arith;
        sent_counted = omega arith;
        dead_counted = let h = tally-all_selecting counts_dead refl w in omega arith;
        right = (tt, tt);
        phases = All-all_selecting (IsRight send rounds) tt w;
        whole = inl (refl, refl);
        going = inl (All-all_selecting IsWorking tt w);
        closing = inl refl;
        size = length-all_selecting w;
      }

  pub RunsTo-Inv : {k : ℕ} {s : Running} → RunsTo d send n k s → Inv s
  RunsTo-Inv begin = run_start-Inv
  RunsTo-Inv (go r step) = RunStep-Inv step (RunsTo-Inv r)
  RunsTo-Inv (cancel_context r on) = cancelled-Inv (RunsTo-Inv r)
