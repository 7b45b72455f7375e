-- ===== src/Drainer/Eviction/History.antt =====
-- How a goroutine of an eviction comes to be done: what it was before each step of a schedule.
use node_reaper.Base.{
  ℕ, ◌≡◌, refl, ◌⊎◌, inl, inr, Bool, true, false, Option, none, some, List, [], ◌∷◌, arith, Error,
  length, get_elem?, set, get_elem?-set, Option-cases, Bool-cases, ltb, subst, ◌∙◌,
}
use node_reaper.Drainer.Api.{Pod}
use node_reaper.Drainer.{wait_for_delete}
use node_reaper.Drainer.Eviction.{
  attempt, answers, Phase, trying, waiting, sending_done, finished, sending_error, failed, Worker,
  Evictor, System, Event, run_worker, receive_error, receive_done, time_out, pass, after_attempt,
  after_wait, step_worker, step, run,
}

abbrev pub is_done : Phase → Bool
is_done finished = true
is_done sending_done = true
is_done _ = false

-- The answer that tells a goroutine that its pod is gone: an attempt that does not find it, or a wait
-- that ends without an error.
abbrev pub LearnsGone : Evictor → System → Worker → Type 0
LearnsGone ev s w =
    ((w.phase ≡ trying)
      × (x : Error) × ((attempt ev w.pod s.calls).0 ≡ some x)
      × (ev.nd.api.is_not_found (some x) ≡ true))
    ⊎ ((w.phase ≡ waiting)
        × (wait_for_delete ev.nd.api ev.nd.poll w.pod (answers ev s.calls w.pod) ≡ some none))

-- In one step of a schedule, the goroutine of a pod learns that it is gone.
abbrev pub Confirms : Evictor → ℕ → Pod → Event → System → Type 0
Confirms ev i pod (run_worker j) s =
    (w : Worker) × (j ≡ i) × (get_elem? s.workers i ≡ some w) × (w.pod ≡ pod) × LearnsGone ev s w
Confirms ev i pod _ s = ⊥

-- In some step of a schedule from a state.
abbrev pub Confirmed : Evictor → ℕ → Pod → List Event → System → Type 0
Confirmed ev i pod [] s = ⊥
Confirmed ev i pod (e ∷ es) s = Confirms ev i pod e s ⊎ Confirmed ev i pod es (step ev e s)

-- What goroutine `i` was before a step.
abbrev Before : Evictor → ℕ → Worker → Event → System → Type 0
Before ev i w' e s =
    (w : Worker) × (get_elem? s.workers i ≡ some w)
    × (w.pod ≡ w'.pod)
    × (is_done w'.phase ≡ true → (is_done w.phase ≡ true) ⊎ Confirms ev i w'.pod e s)

-- A worker found after a write at `j` was there before, or is the one written.
pub after_set :
    (xs : List Worker) (i j : ℕ) (v w' : Worker)
    → get_elem? (set xs j v) i ≡ some w'
    → (get_elem? xs i ≡ some w') ⊎ ((j ≡ i) × (w' ≡ v))
after_set xs i j v w' h = ground (arith, get_elem?-set xs j i v)

move-Before :
    (ev : Evictor) (s : System) (i j : ℕ) (w w' : Worker) (q : Phase)
    → get_elem? s.workers j ≡ some w
    → (is_done q ≡ true → (is_done w.phase ≡ true) ⊎ LearnsGone ev s w)
    → get_elem? (set s.workers j (record w { phase = q })) i ≡ some w'
    → Before ev i w' (run_worker j) s
move-Before ev s i j w w' q at learned after =
    elim (after_set s.workers i j (record w { phase = q }) w' after) [
      | inl same ↦ (w', same, refl, λ d. inl d)
      | inr (here, written) ↦
          let there : get_elem? s.workers i ≡ some w = rw here at at in
          (
            w,
            there,
            rw written,
            λ d. elim (learned (rw written at d)) [
              | inl done ↦ inl done
              | inr gone ↦ inr (w, here, there, rw written, gone)
            ],
          )
    ]

learned_by_attempt :
    (ev : Evictor) (s : System) (w : Worker)
    → w.phase ≡ trying
    → (r : Option Error) → (attempt ev w.pod s.calls).0 ≡ r
    → is_done (after_attempt ev.nd.api r) ≡ true
    → LearnsGone ev s w
learned_by_attempt ev s w e none answered d = absurd (ground arith)
learned_by_attempt ev s w e (some x) answered d = inl (e, x, answered, ground arith)

learned_by_wait :
    (ev : Evictor) (s : System) (w : Worker)
    → w.phase ≡ waiting
    → (r : Option (Option Error))
    → wait_for_delete ev.nd.api ev.nd.poll w.pod (answers ev s.calls w.pod) ≡ r
    → is_done (after_wait r) ≡ true
    → LearnsGone ev s w
learned_by_wait ev s w e none answered d = absurd (ground arith)
learned_by_wait ev s w e (some none) answered d = inr (e, answered)
learned_by_wait ev s w e (some (some x)) answered d = absurd (ground arith)

step_worker-Before :
    (ev : Evictor) (s : System) (i j : ℕ) (w w' : Worker) (p : Phase)
    → get_elem? s.workers j ≡ some w
    → w.phase ≡ p
    → get_elem? (step_worker ev j w p s).workers i ≡ some w'
    → Before ev i w' (run_worker j) s
unfolding step_worker
step_worker-Before ev s i j w w' trying at e after =
    move-Before ev s i j w w' (after_attempt ev.nd.api (attempt ev w.pod s.calls).0) at
      (λ d. inr (learned_by_attempt ev s w e _ refl d)) after
step_worker-Before ev s i j w w' waiting at e after =
    move-Before ev s i j w w'
      (after_wait (wait_for_delete ev.nd.api ev.nd.poll w.pod (answers ev s.calls w.pod))) at
      (λ d. inr (learned_by_wait ev s w e _ refl d)) after
step_worker-Before ev s i j w w' sending_done at e after =
    elim (Bool-cases (ltb s.done_ch (length s.workers))) [
      | inl room ↦ move-Before ev s i j w w' finished at (λ d. inl (rw e)) (ground arith)
      | inr full ↦ (w', ground arith, refl, λ d. inl d)
    ]
step_worker-Before ev s i j w w' (sending_error x) at e after = elim (Option-cases s.err_ch) [
  | inl room ↦ move-Before ev s i j w w' failed at (λ d. absurd (ground arith)) (ground arith)
  | inr (y, full) ↦ (w', ground arith, refl, λ d. inl d)
]
step_worker-Before ev s i j w w' finished at e after = (w', after, refl, λ d. inl d)
step_worker-Before ev s i j w w' failed at e after = (w', after, refl, λ d. inl d)

step-Before :
    (ev : Evictor) (e : Event) (s : System) (i : ℕ) (w' : Worker)
    → get_elem? (step ev e s).workers i ≡ some w'
    → Before ev i w' e s
unfolding step
step-Before ev (run_worker j) s i w' after = elim (Option-cases (get_elem? s.workers j)) [
  | inl nobody ↦ (w', rw nobody at after, refl, λ d. inl d)
  | inr (w, at) ↦ step_worker-Before ev s i j w w' w.phase at refl (rw at at after)
]
step-Before ev receive_error s i w' after = (w', ground arith, refl, λ d. inl d)
step-Before ev receive_done s i w' after = (w', ground arith, refl, λ d. inl d)
step-Before ev time_out s i w' after = (w', ground arith, refl, λ d. inl d)
step-Before ev (pass d) s i w' after = (w', ground arith, refl, λ d. inl d)

-- A goroutine that is done after a schedule was done before it, or its pod is confirmed in it.
pub run-Before :
    (ev : Evictor) (es : List Event) (s : System) (i : ℕ) (w' : Worker)
    → get_elem? (run ev es s).workers i ≡ some w'
    → is_done w'.phase ≡ true
    → (w : Worker) × (get_elem? s.workers i ≡ some w)
      × (w.pod ≡ w'.pod)
      × ((is_done w.phase ≡ true) ⊎ Confirmed ev i w'.pod es s)
unfolding run
run-Before ev [] s i w' after d = (w', after, refl, inl d)
run-Before ev (e ∷ es) s i w' after d =
    let (m, there, same, done) = run-Before ev es (step ev e s) i w' after d in
    let (w, at, pod, before) = step-Before ev e s i m there in
    (
      w,
      at,
      pod ∙ same,
      elim done [
        | inr later ↦ inr (inr later)
        | inl m_done ↦ elim (before m_done) [
          | inl w_done ↦ inl w_done
          | inr now ↦ inr (inl (subst (λ (p : Pod). Confirms ev i p e s) same now))
        ]
      ],
    )
