-- ===== src/Dispatcher/Running.antt =====
-- m03-concurrency/solution-dispatcher/dispatcher.go: `Run`, as the steps of its workers, of the reader
-- of `DeadLetters` and of the caller, in any order. Notifications are named by their position in
-- `in`, which is closed after `n` of them; `send i a` is what `Send` answers for the `i`-th at
-- attempt `a`. How long a wait lasts is left out.
pub mod Kept
pub mod Worker
pub mod Invariant
pub mod Settled
pub mod Processing
pub mod Rounds
pub mod Refines
pub mod Ending
use go_learning.Common.{
  ℕ, zero, suc, ◌+◌, ◌<◌, List, [], ◌∷◌, ◌++◌, Option, none, some, Bool, true, false, All, length,
  ltb, if◌then◌else◌, ◌≡◌,
}
use go_learning.Common.Int.{ℤ, pos_part}
use go_learning.GoErrors.{Err}
use go_learning.Dispatcher.{Metrics, Settings, bump, rounds_of}

-- Where a worker stands: at its select; before `Send`; at the select that waits before an attempt;
-- after the loop of `process`; at the select that offers to the dead-letter channel; gone.
pub data Phase : Type 0 where
  selecting : Phase
  sending : ℕ → ℕ → Phase
  backing : ℕ → ℕ → Phase
  exhausted : ℕ → Phase
  offering : ℕ → Phase
  returned : Phase

-- What the workers share. `taken` notifications came out of `in`. `dead` are those that went into the
-- channel, the latest first, of which `read` were received again. `dropped` are the ones whose worker
-- found the context cancelled while it offered them, `stopped` while it waited for an attempt.
pub record Shared : Type 0 where
  pub taken : ℕ
  pub metrics : Metrics
  pub sent : List ℕ
  pub dead : List ℕ
  pub read : ℕ
  pub dropped : List ℕ
  pub stopped : List ℕ
  pub cancelled : Bool

-- `closed` is the dead-letter channel.
pub record Running : Type 0 where
  pub shared : Shared
  pub workers : List Phase
  pub closed : Bool

-- `make(chan Notification, 64)`
abbrev pub dead_capacity : ℕ
dead_capacity = 64

-- A round of the loop in `process` waits, unless it is the first.
abbrev pub round_of : ℕ → ℕ → Phase
round_of i zero = sending i 0
round_of i (suc b) = backing i (suc b)

-- The head of that loop, with `rounds` attempts in all.
abbrev pub at_attempt : ℕ → ℕ → ℕ → Phase
at_attempt rounds i a = if ltb a rounds then round_of i a else exhausted i

abbrev pub with_sent : Metrics → Metrics
with_sent m = record m { sent = bump m.sent }

abbrev pub with_failed : Metrics → Metrics
with_failed m = record m { failed = bump m.failed }

abbrev pub with_dead_lettered : Metrics → Metrics
with_dead_lettered m = record m { dead_lettered = bump m.dead_lettered }

-- One step of one worker: what is shared and its phase, before and after.
pub data WorkerStep (send : ℕ → ℕ → Option Err) (n rounds : ℕ)
    : Shared → Phase → Shared → Phase → Type 0 where
  take_next :
      {x : Shared}
      → x.taken < n
      → WorkerStep send n rounds x selecting
          (record x { taken = suc x.taken })
          (at_attempt rounds x.taken 0)
  input_closed : {x : Shared} → x.taken ≡ n → WorkerStep send n rounds x selecting x returned
  select_canceled :
      {x : Shared} → x.cancelled ≡ true → WorkerStep send n rounds x selecting x returned
  wait_over : {x : Shared} (i a : ℕ) → WorkerStep send n rounds x (backing i a) x (sending i a)
  wait_canceled :
      {x : Shared} (i a : ℕ)
      → x.cancelled ≡ true
      → WorkerStep send n rounds x (backing i a) (record x { stopped = i ∷ x.stopped }) selecting
  send_succeeds :
      {x : Shared} (i a : ℕ)
      → send i a ≡ none
      → WorkerStep send n rounds x
          (sending i a)
          (record x { metrics = with_sent x.metrics; sent = i ∷ x.sent })
          selecting
  send_fails :
      {x : Shared} (i a : ℕ) (err : Err)
      → send i a ≡ some err
      → WorkerStep send n rounds x
          (sending i a)
          (record x { metrics = with_failed x.metrics })
          (at_attempt rounds i (suc a))
  count_exhausted :
      {x : Shared} (i : ℕ)
      → WorkerStep send n rounds x
          (exhausted i)
          (record x { metrics = with_dead_lettered x.metrics })
          (offering i)
  offer :
      {x : Shared} (i : ℕ)
      → length x.dead < x.read + dead_capacity
      → WorkerStep send n rounds x (offering i) (record x { dead = i ∷ x.dead }) selecting
  offer_canceled :
      {x : Shared} (i : ℕ)
      → x.cancelled ≡ true
      → WorkerStep send n rounds x (offering i) (record x { dropped = i ∷ x.dropped }) selecting

abbrev pub HasReturned : Phase → Type 0
HasReturned selecting = ⊥
HasReturned (sending i a) = ⊥
HasReturned (backing i a) = ⊥
HasReturned (exhausted i) = ⊥
HasReturned (offering i) = ⊥
HasReturned returned = Unit

pub data RunStep (send : ℕ → ℕ → Option Err) (n rounds : ℕ) : Running → Running → Type 0 where
  by_worker :
      {s : Running} (ps qs : List Phase) (p : Phase) (x : Shared) (q : Phase)
      → s.workers ≡ ps ++ p ∷ qs
      → WorkerStep send n rounds s.shared p x q
      → RunStep send n rounds s (record s { shared = x; workers = ps ++ q ∷ qs })
  read_dead :
      {s : Running}
      → s.shared.read < length s.shared.dead
      → RunStep send n rounds s (record s { shared = record s.shared { read = suc s.shared.read } })
  -- `wg.Wait(); close(d.dead)`
  close_dead :
      {s : Running}
      → s.closed ≡ false
      → All HasReturned s.workers
      → RunStep send n rounds s (record s { closed = true })

abbrev pub all_selecting : ℕ → List Phase
all_selecting zero = []
all_selecting (suc w) = selecting ∷ all_selecting w

abbrev pub nothing_done : Shared
nothing_done = record {
  taken = 0;
  metrics = record { sent = 0; failed = 0; dead_lettered = 0 };
  sent = [];
  dead = [];
  read = 0;
  dropped = [];
  stopped = [];
  cancelled = false;
}

-- `for i := 0; i < d.workers; i++`
unfoldable pub run_start : Settings → Running
run_start d = record {
  shared = nothing_done;
  workers = all_selecting (pos_part d.workers);
  closed = false;
}

-- The runs of `k` steps. That the caller cancels its context is counted among them, but it is no step
-- of `Run`.
pub data RunsTo (d : Settings) (send : ℕ → ℕ → Option Err) (n : ℕ) : ℕ → Running → Type 0 where
  begin : RunsTo d send n 0 (run_start d)
  go :
      {k : ℕ} {s t : Running}
      → RunsTo d send n k s
      → RunStep send n (rounds_of d.max_attempts) s t
      → RunsTo d send n (suc k) t
  cancel_context :
      {k : ℕ} {s : Running}
      → RunsTo d send n k s
      → s.shared.cancelled ≡ false
      → RunsTo d send n (suc k) (record s { shared = record s.shared { cancelled = true } })
