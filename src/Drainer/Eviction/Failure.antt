-- ===== src/Drainer/Eviction/Failure.antt =====
-- Why an eviction fails: the timeout, or the answer that a goroutine got in a step of the schedule.
pub mod Returned
use node_reaper.Base.{
  ℕ, zero, suc, ◌≡◌, refl, ◌∙◌, ◌⊎◌, inl, inr, Bool, true, false, Option, none, some, List, [], ◌∷◌,
  arith, Error, failure, wrapped, attempting, waiting_for_pod, drain_timed_out, length, get_elem?,
  set, map, Option-cases, Bool-cases, ltb, subst, sym,
}
use node_reaper.Drainer.Api.{Pod, Call}
use node_reaper.Drainer.{wait_for_delete}
use node_reaper.Drainer.Eviction.{
  attempt, answers, Phase, trying, waiting, sending_done, finished, sending_error, failed, Worker,
  new_worker, Evictor, System, Event, run_worker, receive_error, receive_done, time_out, pass,
  after_attempt, after_wait, step_worker, run_at, step, run, start,
}
use node_reaper.Drainer.Eviction.History.{after_set}

-- The answer that a goroutine fails with: an attempt that is refused for another reason than that its pod
-- is missing or that there are too many requests, or a wait that ends with an error.
abbrev pub LearnsFailure : Evictor → System → Worker → Error → Type 0
LearnsFailure ev s w e =
    (x : Error) × (((w.phase ≡ trying)
        × ((attempt ev w.pod s.calls).0 ≡ some x)
        × (ev.nd.api.is_not_found (some x) ≡ false)
        × (ev.nd.api.is_too_many_requests (some x) ≡ false)
        × (e ≡ wrapped attempting x))
      ⊎ ((w.phase ≡ waiting)
          × (wait_for_delete ev.nd.api ev.nd.poll w.pod (answers ev s.calls w.pod) ≡ some (some x))
          × (e ≡ wrapped waiting_for_pod x)))

-- In one step of a schedule, a goroutine gets such an answer.
abbrev pub Fails : Evictor → Error → Event → System → Type 0
Fails ev e (run_worker i) s =
    (w : Worker) × (get_elem? s.workers i ≡ some w) × LearnsFailure ev s w e
Fails ev e _ s = ⊥

-- In some step of a schedule from a state.
abbrev pub Failed : Evictor → Error → List Event → System → Type 0
Failed ev e [] s = ⊥
Failed ev e (x ∷ es) s = Fails ev e x s ⊎ Failed ev e es (step ev x s)

-- Every error that a goroutine is about to send, that is in the channel or that is returned has a
-- property; but for the timeout.
pub record IsBlamed (P : Error → Type 0) (s : System) : Type 0 where
  pub workers :
      (i : ℕ) (w : Worker) (e : Error)
      → get_elem? s.workers i ≡ some w
      → w.phase ≡ sending_error e
      → P e
  pub channel : (e : Error) → s.err_ch ≡ some e → P e
  pub result : (e : Error) → s.returned ≡ some (some e) → (e ≡ failure drain_timed_out []) ⊎ P e

-- A goroutine moves on; if it is about to send an error now, the error is accounted for.
move-IsBlamed :
    {P : Error → Type 0} (s t : System) (i : ℕ) (w : Worker) (q : Phase)
    → t.workers ≡ set s.workers i (record w { phase = q })
    → ((e : Error) → t.err_ch ≡ some e → P e)
    → t.returned ≡ s.returned
    → ((e : Error) → q ≡ sending_error e → P e)
    → IsBlamed P s
    → IsBlamed P t
move-IsBlamed {P} s t i w q moved sent same accounted h = record {
  workers = λ j w' e at phase.
      elim (after_set s.workers j i (record w { phase = q }) w'
        (subst (λ ws. get_elem? ws j ≡ some w') moved at)) [
          | inl there ↦ h.workers j w' e there phase
          | inr (here, written) ↦ accounted e (ground arith)
        ];
  channel = sent;
  result = λ e r. h.result e (subst (λ x. x ≡ some (some e)) same r);
}

pub IsBlamed-map :
    {P Q : Error → Type 0} (s : System) → ((e : Error) → P e → Q e) → IsBlamed P s → IsBlamed Q s
IsBlamed-map s f h = record {
  workers = λ i w e at phase. f e (h.workers i w e at phase);
  channel = λ e sent. f e (h.channel e sent);
  result = λ e r. elim (h.result e r) [ inl late ↦ inl late | inr p ↦ inr (f e p) ];
}

module _ (ev : Evictor) where
  failed_by_attempt :
      (s : System) (w : Worker) (e : Error)
      → w.phase ≡ trying
      → (r : Option Error) → (attempt ev w.pod s.calls).0 ≡ r
      → after_attempt ev.nd.api r ≡ sending_error e
      → LearnsFailure ev s w e
  failed_by_attempt s w e p none answered d = absurd (ground arith)
  failed_by_attempt s w e p (some x) answered d =
      (x, inl (p, answered, ground arith, ground arith, ground arith))

  failed_by_wait :
      (s : System) (w : Worker) (e : Error)
      → w.phase ≡ waiting
      → (r : Option (Option Error))
      → wait_for_delete ev.nd.api ev.nd.poll w.pod (answers ev s.calls w.pod) ≡ r
      → after_wait r ≡ sending_error e
      → LearnsFailure ev s w e
  failed_by_wait s w e p none answered d = absurd (ground arith)
  failed_by_wait s w e p (some none) answered d = absurd (ground arith)
  failed_by_wait s w e p (some (some x)) answered d = (x, inr (p, answered, ground arith))

  pub step_worker-IsBlamed :
      {P : Error → Type 0} (s : System) (i : ℕ) (w : Worker) (p : Phase)
      → get_elem? s.workers i ≡ some w
      → w.phase ≡ p
      → ((e : Error) → LearnsFailure ev s w e → P e)
      → IsBlamed P s
      → IsBlamed P (step_worker ev i w p s)
  unfolding step_worker
  step_worker-IsBlamed s i w trying at phase learns h =
      move-IsBlamed s _ i w (after_attempt ev.nd.api (attempt ev w.pod s.calls).0) refl h.channel
        refl (λ e d. learns e (failed_by_attempt s w e phase _ refl d)) h
  step_worker-IsBlamed s i w waiting at phase learns h =
      move-IsBlamed s _ i w
        (after_wait (wait_for_delete ev.nd.api ev.nd.poll w.pod (answers ev s.calls w.pod))) refl
        h.channel refl (λ e d. learns e (failed_by_wait s w e phase _ refl d)) h
  step_worker-IsBlamed {P} s i w sending_done at phase learns h =
      elim (Bool-cases (ltb s.done_ch (length s.workers))) [
        | inl room ↦ rw room (move-IsBlamed s _ i w finished refl h.channel refl (λ e d. cc) h)
        | inr full ↦ rw full h
      ]
  step_worker-IsBlamed {P} s i w (sending_error x) at phase learns h =
      elim (Option-cases s.err_ch) [
        | inl room ↦
            simp (step_worker, room)
              (move-IsBlamed s _ i w failed refl (λ e d. subst P (cc) (h.workers i w x at phase))
                refl (λ e d. cc) h)
        | inr (y, full) ↦ simp (step_worker, full) h
      ]
  step_worker-IsBlamed s i w finished at phase learns h = h
  step_worker-IsBlamed s i w failed at phase learns h = h
