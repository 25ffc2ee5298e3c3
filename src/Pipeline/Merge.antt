-- ===== src/Pipeline/Merge.antt =====
-- m03-concurrency/solution-pipeline/pipeline.go: `Merge`, as the steps of its goroutines in any order.
-- An input channel is the list of the values it yields until it is closed.
pub mod Ending
pub mod Order
use go_learning.Common.{ℕ, suc, ◌+◌, List, [], ◌∷◌, ◌++◌, Bool, true, false, All, map, ◌≡◌}

-- What the goroutine of one channel is doing.
pub data Forwarder (T : Type 0) : Type 0 where
  ranging : List T → Forwarder T
  sending : T → List T → Forwarder T
  returned : Forwarder T

-- `out` has the values received from the output channel, the latest last.
pub record Merging (T : Type 0) : Type 0 where
  pub forwarders : List (Forwarder T)
  pub out : List T
  pub closed : Bool

abbrev pub HasReturned : {T : Type 0} → Forwarder T → Type 0
HasReturned (ranging vs) = ⊥
HasReturned (sending v vs) = ⊥
HasReturned returned = Unit

unfoldable pub merge : {T : Type 0} → List (List T) → Merging T
merge chans = record { forwarders = map ranging chans; out = []; closed = false }

pub data MergeStep {T : Type 0} : Merging T → Merging T → Type 0 where
  -- `for v := range c` takes a value, or ends.
  take_value :
      {s : Merging T} (fs gs : List (Forwarder T)) (v : T) (vs : List T)
      → s.forwarders ≡ fs ++ ranging (v ∷ vs) ∷ gs
      → MergeStep s (record s { forwarders = fs ++ sending v vs ∷ gs })
  end_of_channel :
      {s : Merging T} (fs gs : List (Forwarder T))
      → s.forwarders ≡ fs ++ ranging [] ∷ gs
      → MergeStep s (record s { forwarders = fs ++ returned ∷ gs })
  -- `out <- v`
  send_value :
      {s : Merging T} (fs gs : List (Forwarder T)) (v : T) (vs : List T)
      → s.forwarders ≡ fs ++ sending v vs ∷ gs
      → MergeStep s (record s { forwarders = fs ++ ranging vs ∷ gs; out = s.out ++ v ∷ [] })
  -- `close(out)` after `wg.Wait()`.
  close_out :
      {s : Merging T}
      → s.closed ≡ false
      → All HasReturned s.forwarders
      → MergeStep s (record s { closed = true })

-- The runs of `k` steps.
pub data Merges {T : Type 0} (chans : List (List T)) : ℕ → Merging T → Type 0 where
  begin : Merges chans 0 (merge chans)
  go : {k : ℕ} {s t : Merging T} → Merges chans k s → MergeStep s t → Merges chans (suc k) t
