-- ===== src/Drainer/Eviction.antt =====
-- `evictOrDeletePods` of pkg/drainer/drain.go: one goroutine for each pod, two channels, and the loop
-- that receives. A schedule says whose step comes next; what a step cannot do leaves the system as it
-- is. A wait that comes to its end is one step, which the schedule may put off as long as the wait lasts; one
-- that does not come to an end stays as it is at each step. Sends and receives go through the buffers of the channels.
pub mod Invariant
pub mod History
pub mod Outcome
pub mod Progress
pub mod Serial
pub mod Timing
pub mod TimedOut
pub mod Failure
pub mod Fair
use node_reaper.Base.{
  ℕ, zero, suc, ◌+◌, ◌-◌, ◌≡◌, Bool, true, false, Option, none, some, List, [], ◌∷◌, length, map,
  Bytes, Error, failure, wrapped, if◌then◌else◌, ltb, ◌==◌, attempting, waiting_for_pod,
  drain_timed_out, get_elem?, set,
}
use node_reaper.Base.Int.{ℤ, pos, leb_ℤ}
use node_reaper.Config.Duration.{whole_seconds}
use node_reaper.Drainer.Api.{Pod, ApiErrors, Call}
use node_reaper.Drainer.Functions.{NodeDrainer}
use node_reaper.Drainer.{wait_for_delete}

-- Where a goroutine stands: before an attempt, before its wait, before a send, or at its end.
pub data Phase : Type 0 where
  trying waiting : Phase
  sending_done finished : Phase
  sending_error : Error → Phase
  failed : Phase

pub record Worker : Type 0 where
  pub pod : Pod
  pub phase : Phase

-- `evictOrDeletePodsOptions`
pub record EvictOrDeletePodsOptions : Type 0 where
  pub policy_group_version : Bytes
  pub grace_period : ℤ
  pub use_eviction : Bool

-- The receiver and the options of `evictOrDeletePods`.
pub record Evictor : Type 0 where
  pub nd : NodeDrainer
  pub options : EvictOrDeletePodsOptions

-- The goroutines, `doneCh` by the number of values in it, `errCh` with its one place, `doneCount`, the
-- time since the `select` began to wait, the calls so far, and what the function has returned.
pub record System : Type 0 where
  pub workers : List Worker
  pub done_ch : ℕ
  pub err_ch : Option Error
  pub done_count : ℕ
  pub idle : ℕ
  pub calls : List Call
  pub returned : Option (Option Error)

pub data Event : Type 0 where
  -- the next step of a goroutine
  run_worker : ℕ → Event
  -- the cases of the `select`, and time that passes in it
  receive_error receive_done time_out : Event
  pass : ℕ → Event

-- The phase after an attempt.
abbrev pub after_attempt : ApiErrors → Option Error → Phase
after_attempt api none = waiting
after_attempt api (some e) =
    if api.is_not_found (some e)
    then sending_done
    else if api.is_too_many_requests (some e)
    then trying
    else sending_error (wrapped attempting e)

-- The phase after a turn of the wait: it goes on, or is over.
abbrev pub after_wait : Option (Option Error) → Phase
after_wait none = waiting
after_wait (some none) = sending_done
after_wait (some (some e)) = sending_error (wrapped waiting_for_pod e)

-- An attempt: what it returns, and the calls after it.
unfoldable pub attempt : Evictor → Pod → List Call → Option Error × List Call
attempt ev pod calls =
    let grace_period = whole_seconds ev.options.grace_period in
    if ev.options.use_eviction
    then ev.nd.evict_pod_fn pod ev.options.policy_group_version grace_period calls
    else ev.nd.delete_pod_fn pod grace_period calls

-- `getPodFn` for the pod that is waited for, in each round of the wait. The rounds are answered from the calls
-- before the wait: two goroutines that wait for one pod after the same calls get the same answers.
abbrev pub answers : Evictor → List Call → Pod → ℕ → Option Pod × Option Error
answers ev calls pod = ev.nd.get_pod_fn calls pod.namespace pod.name

abbrev pub move : ℕ → Worker → Phase → System → System
move i w p s = record s { workers = set s.workers i (record w { phase = p }) }

-- One step of goroutine `i`. A send on a channel that is full waits.
unfoldable pub step_worker : Evictor → ℕ → Worker → Phase → System → System
step_worker ev i w trying s =
    let (e, calls) = attempt ev w.pod s.calls in
    record (move i w (after_attempt ev.nd.api e) s) { calls = calls }
step_worker ev i w waiting s =
    move i w (after_wait (wait_for_delete ev.nd.api ev.nd.poll w.pod (answers ev s.calls w.pod))) s
step_worker ev i w sending_done s =
    if ltb s.done_ch (length s.workers)
    then record (move i w finished s) { done_ch = s.done_ch + 1 }
    else s
step_worker ev i w (sending_error e) s = elim s.err_ch [
  | none ↦ record (move i w failed s) { err_ch = some e }
  | some _ ↦ s
]
step_worker ev i w finished s = s
step_worker ev i w failed s = s

-- The cases of the `select`, while the function has not returned.
unfoldable pub select_error : System → System
select_error s = elim s.err_ch [
  | none ↦ s
  | some e ↦ record s { err_ch = none; returned = some (some e) }
]

unfoldable pub select_done : System → System
select_done s =
    if ltb 0 s.done_ch
    then record s {
      done_ch = s.done_ch - 1;
      done_count = s.done_count + 1;
      idle = 0;
      returned = if s.done_count + 1 == length s.workers then some none else none;
    }
    else s

unfoldable pub select_time_out : ℤ → System → System
select_time_out timeout s =
    if leb_ℤ timeout (pos s.idle)
    then record s { returned = some (some (failure drain_timed_out [])) }
    else s

abbrev pub unless_returned : System → System → System
unless_returned s s' = elim s.returned [ none ↦ s' | some _ ↦ s ]

abbrev pub run_at : Evictor → ℕ → Option Worker → System → System
run_at ev i none s = s
run_at ev i (some w) s = step_worker ev i w w.phase s

unfoldable pub step : Evictor → Event → System → System
unfolding step_worker select_error select_done select_time_out
step ev (run_worker i) s = run_at ev i (get_elem? s.workers i) s
step ev receive_error s = unless_returned s (select_error s)
step ev receive_done s = unless_returned s (select_done s)
step ev time_out s = unless_returned s (select_time_out ev.nd.opts.timeout s)
step ev (pass d) s = unless_returned s (record s { idle = s.idle + d })

unfoldable pub run : Evictor → List Event → System → System
run ev [] s = s
run ev (e ∷ es) s = run ev es (step ev e s)

abbrev pub new_worker : Pod → Worker
new_worker pod = record { pod = pod; phase = trying }

-- The state when the goroutines have started; for no pods the function has returned.
unfoldable pub start : List Pod → List Call → System
start pods calls = record {
  workers = map new_worker pods;
  done_ch = 0;
  err_ch = none;
  done_count = 0;
  idle = 0;
  calls = calls;
  returned = elim pods [ [] ↦ some none | _ ∷ _ ↦ none ];
}
