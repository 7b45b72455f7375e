-- ===== src/Drainer/Eviction/Fair.antt =====
-- Fair schedules of an eviction: what can be done next, and how much is left to do.
pub mod Alive
pub mod Steps
pub mod Rounds
pub mod Success
use node_reaper.Base.{
  ℕ, zero, suc, ltb, ◌+◌, ◌*◌, ◌<◌, ◌≡◌, ◌≢◌, ◌⊎◌, Bool, true, false, Option, none, some, List, [],
  ◌∷◌, length, get_elem?, Some, Error,
}
use node_reaper.Drainer.Api.{Pod, Call}
use node_reaper.Drainer.{wait_for_delete}
use node_reaper.Drainer.Eviction.{
  attempt, answers, Phase, trying, waiting, sending_done, finished, sending_error, failed, Worker,
  Evictor, System, Event, run_worker, receive_error, receive_done, time_out, pass,
}

-- The steps that a goroutine has left, at most.
abbrev pub rank : Phase → ℕ
rank trying = 3
rank waiting = 2
rank sending_done = 1
rank (sending_error e) = 1
rank finished = 0
rank failed = 0

abbrev pub total_rank : List Worker → ℕ
total_rank [] = 0
total_rank (w ∷ ws) = rank w.phase + total_rank ws

-- A send takes one from the first part and adds one to the second.
abbrev pub potential : System → ℕ
potential s = 2 * total_rank s.workers + s.done_ch

-- A step of a goroutine that is not blocked, and a receive that finds a value.
abbrev pub CanGo : Phase → System → Type 0
CanGo trying s = Unit
CanGo waiting s = Unit
CanGo sending_done s = ltb s.done_ch (length s.workers) ≡ true
CanGo (sending_error e) s = s.err_ch ≡ none
CanGo finished s = ⊥
CanGo failed s = ⊥

abbrev pub IsEnabled : Event → System → Type 0
IsEnabled (run_worker i) s = (w : Worker) × (get_elem? s.workers i ≡ some w) × CanGo w.phase s
IsEnabled receive_error s = s.err_ch ≢ none
IsEnabled receive_done s = 0 < s.done_ch
IsEnabled time_out s = ⊥
IsEnabled (pass d) s = ⊥

-- Each goroutine of `n`, from number `i` on, has its turn in a part of a schedule, as both channels have.
abbrev pub Turns : ℕ → List Event → Type 0
Turns n es = (i : ℕ) → i < n → Some (λ e. e ≡ run_worker i) es

pub record IsRound (n : ℕ) (es : List Event) : Type 0 where
  pub goroutines : Turns n es
  pub errors : Some (λ e. e ≡ receive_error) es
  pub values : Some (λ e. e ≡ receive_done) es

-- No attempt is asked to come again later.
abbrev pub NeverBusy : Evictor → Type 0
NeverBusy ev =
    (calls : List Call) (pod : Pod) (x : Error)
    → (attempt ev pod calls).0 ≡ some x
    → (ev.nd.api.is_not_found (some x) ≡ true) ⊎ (ev.nd.api.is_too_many_requests (some x) ≡ false)

-- Every wait comes to its end, with or without an error.
abbrev pub WaitsEnd : Evictor → Type 0
WaitsEnd ev =
    (calls : List Call) (pod : Pod)
    → wait_for_delete ev.nd.api ev.nd.poll pod (answers ev calls pod) ≢ none

-- No goroutine goes on for ever.
abbrev pub IsFinite : Evictor → Type 0
IsFinite ev = NeverBusy ev × WaitsEnd ev

-- Every pod is evicted: an attempt is accepted or does not find the pod, and a wait ends without an error.
pub record IsWilling (ev : Evictor) : Type 0 where
  pub accepted :
      (calls : List Call) (pod : Pod) (x : Error)
      → (attempt ev pod calls).0 ≡ some x
      → ev.nd.api.is_not_found (some x) ≡ true
  pub gone :
      (calls : List Call) (pod : Pod)
      → wait_for_delete ev.nd.api ev.nd.poll pod (answers ev calls pod) ≡ some none
