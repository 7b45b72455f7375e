-- ===== src/Drainer/Api.antt =====
-- What pkg/drainer/drain.go sees of the API server and of its client library. An answer may depend on
-- the calls made so far.
use node_reaper.Base.{some, ℕ, ◌<◌, ◌≡◌, Bool, true, false, Option, none, List, Bytes, Error}
use node_reaper.Base.Int.{ℤ}

-- The parts of `corev1.Pod` that are read: the kinds are those of its owner references.
pub record Pod : Type 0 where
  pub name : Bytes
  pub namespace : Bytes
  pub uid : Bytes
  pub owner_kinds : List Bytes

pub data Call : Type 0 where
  -- the patch that cordons a node
  cordon : Bytes → Call
  -- discovery, of the groups and of the resources of a group version, and the list of the pods on a node
  discover : Call
  discover_resources : Bytes → Call
  list_pods : Bytes → Call
  -- an eviction with its group version, and a deletion with the uid that it requires; the grace period
  -- in seconds is left to the server if it is missing
  evict : Bytes → Bytes → Bytes → Option ℤ → Call
  delete : Bytes → Bytes → Bytes → Option ℤ → Call

-- `apierrors`: these are asked about `nil` too.
pub record ApiErrors : Type 0 where
  pub is_not_found : Option Error → Bool
  pub is_timeout : Option Error → Bool
  pub is_too_many_requests : Option Error → Bool

-- `wait.PollImmediate(interval, timeout, condition)`, over what the condition returns in each round; `none` if
-- it does not return, as long as the program runs.
abbrev pub Poll : Type 0
Poll = ℤ → ℤ → (ℕ → Bool × Option Error) → Option (Option Error)

-- A round that goes on.
abbrev pub goes_on : Bool × Option Error
goes_on = (false, none)

-- A round that is true without an error, or fails.
abbrev pub Ends : Bool × Option Error → Type 0
Ends (true, none) = Unit
Ends (false, none) = ⊥
Ends (b, some e) = Unit

-- What is documented of it: it asks until a round is true, fails, or the time is over, and it asks at once.
-- How many rounds there is surely time for depends on how long a round takes, and is left to the
-- implementation.
pub record IsPoll (poll : Poll) : Type 0 where
  pub rounds_in : ℤ → ℤ → ℕ
  pub immediate : (interval timeout : ℤ) → 0 < rounds_in interval timeout
  -- the first round that is true or fails ends it
  pub ends :
      (interval timeout : ℤ) (rounds : ℕ → Bool × Option Error) (n : ℕ) (r : Bool × Option Error)
      → n < rounds_in interval timeout
      → ((m : ℕ) → m < n → rounds m ≡ goes_on)
      → rounds n ≡ r
      → Ends r
      → poll interval timeout rounds ≡ some r.1
