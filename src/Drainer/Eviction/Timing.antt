-- ===== src/Drainer/Eviction/Timing.antt =====
-- How long the loop of `evictOrDeletePods` may wait.
use node_reaper.Base.{
  ℕ, zero, suc, ltb, failure, drain_timed_out, ◌∙◌, ◌⊎◌, ◌+◌, ◌*◌, ◌≤◌, ◌≡◌, refl, true, Option,
  none, some, List, [], ◌∷◌, ◌++◌, ap, arith, Error, length, get_elem?, inl, inr, Option-cases,
  Bool-cases,
}
use node_reaper.Base.Int.{ℤ, pos, leb_ℤ}
use node_reaper.Drainer.Api.{Pod, Call}
use node_reaper.Drainer.Eviction.{
  Phase, trying, waiting, sending_done, finished, sending_error, failed, Worker, Evictor, Event,
  System, run_worker, receive_error, receive_done, time_out, pass, step_worker, step, run, start,
}
use node_reaper.Drainer.Eviction.Outcome.{length-step, length-start}

-- The time that passes in the loop by an event, and under a schedule: none once the loop has returned.
abbrev pub passed : Event → Option (Option Error) → ℕ
passed (pass d) none = d
passed _ _ = 0

abbrev pub spent : Evictor → List Event → System → ℕ
spent ev [] s = 0
spent ev (e ∷ es) s = passed e s.returned + spent ev es (step ev e s)

-- The timer of the `select` does not run late: no more time passes at once than it has left.
abbrev pub InTime : ℤ → Event → System → Type 0
InTime timeout (pass d) s = elim s.returned [
  | none ↦ leb_ℤ (pos (s.idle + d)) timeout ≡ true
  | some r ↦ Unit
]
InTime timeout _ s = Unit

abbrev pub IsPrompt : Evictor → List Event → System → Type 0
IsPrompt ev [] s = Unit
IsPrompt ev (e ∷ es) s = InTime ev.nd.opts.timeout e s × IsPrompt ev es (step ev e s)

module _ (ev : Evictor) where
  -- What a goroutine leaves alone.
  step_worker-keeps :
      (i : ℕ) (w : Worker) (p : Phase) (s : System)
      → ((step_worker ev i w p s).returned ≡ s.returned)
        × ((step_worker ev i w p s).done_count ≡ s.done_count)
        × ((step_worker ev i w p s).idle ≡ s.idle)
  unfolding step_worker
  step_worker-keeps i w trying s = (refl, refl, refl)
  step_worker-keeps i w waiting s = (refl, refl, refl)
  step_worker-keeps i w sending_done s = ground arith
  step_worker-keeps i w (sending_error e) s = ground arith
  step_worker-keeps i w finished s = (refl, refl, refl)
  step_worker-keeps i w failed s = (refl, refl, refl)

  pub run_worker-keeps :
      (i : ℕ) (s : System)
      → ((step ev (run_worker i) s).returned ≡ s.returned)
        × ((step ev (run_worker i) s).done_count ≡ s.done_count)
        × ((step ev (run_worker i) s).idle ≡ s.idle)
  unfolding step
  run_worker-keeps i s = elim (Option-cases (get_elem? s.workers i)) [
    | inl nobody ↦ rw nobody (refl, refl, refl)
    | inr (w, at) ↦ rw at (step_worker-keeps i w w.phase s)
  ]

  -- What has been returned stays.
  pub step-returned :
      (e : Event) (s : System) (r : Option Error)
      → s.returned ≡ some r
      → (step ev e s).returned ≡ some r
  unfolding step
  step-returned (run_worker i) s r h = ground (arith, run_worker-keeps i s)
  step-returned receive_error s r h = ground arith
  step-returned receive_done s r h = ground arith
  step-returned time_out s r h = ground arith
  step-returned (pass d) s r h = ground arith

  passed-returned : (e : Event) (r : Option Error) → passed e (some r) ≡ 0
  passed-returned (run_worker i) r = refl
  passed-returned receive_error r = refl
  passed-returned receive_done r = refl
  passed-returned time_out r = refl
  passed-returned (pass d) r = refl

  spent-returned :
      (es : List Event) (s : System) (r : Option Error) → s.returned ≡ some r → spent ev es s ≡ 0
  spent-returned [] s r h = refl
  spent-returned (e ∷ es) s r h = omega (
    arith,
    ap (passed e) h,
    passed-returned e r,
    spent-returned es (step ev e s) r (step-returned e s r h),
  )

  -- What a step does to a loop that waits: it returns, it goes on with the time that passed, or it has
  -- received a value that is not the last.
  abbrev Onward : Event → System → ℕ → Type 0
  Onward e s m =
      ((r : Option Error) × ((step ev e s).returned ≡ some r) × (passed e none ≡ 0))
      ⊎ (((step ev e s).returned ≡ none)
          × ((step ev e s).done_count ≡ s.done_count)
          × ((step ev e s).idle ≡ s.idle + passed e none))
      ⊎ ((m' : ℕ) × (m ≡ suc m')
          × ((step ev e s).returned ≡ none)
          × ((step ev e s).done_count ≡ s.done_count + 1)
          × ((step ev e s).idle ≡ 0)
          × (passed e none ≡ 0))

  step-Onward :
      (e : Event) (s : System) (m : ℕ)
      → s.returned ≡ none
      → s.done_count + suc m ≡ length s.workers
      → Onward e s m
  unfolding step
  step-Onward (run_worker i) s m runs left =
      let (returned', count', idle') = run_worker-keeps i s in
      inr (inl (returned' ∙ runs, count', omega (arith, idle')))
  step-Onward receive_error s m runs left = elim (Option-cases s.err_ch) [
    | inl empty ↦ inr (inl (ground arith, ground arith, ground arith))
    | inr (e, there) ↦ inl (some e, ground arith, refl)
  ]
  step-Onward receive_done s m runs left = elim (Bool-cases (ltb 0 s.done_ch)) [
    | inr empty ↦ inr (inl (ground arith, ground arith, ground arith))
    | inl there ↦ received m left there
  ]
    where
      received :
          (m : ℕ)
          → s.done_count + suc m ≡ length s.workers
          → ltb 0 s.done_ch ≡ true
          → Onward receive_done s m
      received zero left there = inl (none, ground arith, refl)
      received (suc m') left there =
          inr (inr (m', refl, ground arith, ground arith, ground arith, refl))
  step-Onward time_out s m runs left = elim (Bool-cases (leb_ℤ ev.nd.opts.timeout (pos s.idle))) [
    | inl late ↦ inl (some (failure drain_timed_out []), ground arith, refl)
    | inr early ↦ inr (inl (ground arith, ground arith, ground arith))
  ]
  step-Onward (pass d) s m runs left = inr (inl (ground arith, ground arith, ground arith))

  InTime-le :
      (e : Event) (s : System) (t : ℕ)
      → ev.nd.opts.timeout ≡ pos t
      → s.returned ≡ none
      → s.idle ≤ t
      → InTime ev.nd.opts.timeout e s
      → s.idle + passed e none ≤ t
  InTime-le (run_worker i) s t limit runs early fits = omega arith
  InTime-le receive_error s t limit runs early fits = omega arith
  InTime-le receive_done s t limit runs early fits = omega arith
  InTime-le time_out s t limit runs early fits = omega arith
  InTime-le (pass d) s t limit runs early fits = ground arith

  -- The time left for a loop that waits for `suc m` more values.
  spent-le :
      (es : List Event) (s : System) (t m : ℕ)
      → ev.nd.opts.timeout ≡ pos t
      → s.returned ≡ none
      → s.done_count + suc m ≡ length s.workers
      → s.idle ≤ t
      → IsPrompt ev es s
      → spent ev es s + s.idle ≤ t + m * t
  spent-le [] s t m limit runs left early prompt = omega arith
  spent-le (e ∷ es) s t m limit runs left early prompt = elim (step-Onward e s m runs left) [
    | inl (r, returned', nothing) ↦
        let quiet = spent-returned es (step ev e s) r returned' in omega (arith, ap (passed e) runs)
    | inr (inl (runs', count', idle')) ↦
        let within : s.idle + passed e none ≤ t = InTime-le e s t limit runs early prompt.0 in
        let rest =
          spent-le es (step ev e s) t m limit runs' (omega (arith, length-step ev e s))
            (omega arith) prompt.1 in
        omega (arith, ap (passed e) runs)
    | inr (inr (m', fewer, runs', count', idle', nothing)) ↦
        let rest =
          spent-le es (step ev e s) t m' limit runs' (omega (arith, length-step ev e s))
            (omega arith) prompt.1 in
        omega (arith, ap (passed e) runs, ap (λ (k : ℕ). k * t) fewer)
  ]

  -- However the goroutines and the loop take turns, with a timeout that is not negative and a timer that
  -- is in time, the loop waits no longer than the timeout once for each pod.
  pub spent-bounds :
      (pods : List Pod) (calls : List Call) (es : List Event) (t : ℕ)
      → ev.nd.opts.timeout ≡ pos t
      → IsPrompt ev es (start pods calls)
      → spent ev es (start pods calls) ≤ length pods * t
  unfolding start
  spent-bounds [] calls es t limit prompt =
      let none_ = spent-returned es (start [] calls) none refl in omega (arith, none_)
  spent-bounds (pod ∷ pods) calls es t limit prompt =
      let bound =
        spent-le es (start (pod ∷ pods) calls) t (length pods) limit refl
          (omega (arith, length-start (pod ∷ pods) calls)) (omega arith) prompt in
      omega (arith, bound)

  pub returned-append :
      (es es' : List Event) (s : System) → run ev (es ++ es') s ≡ run ev es' (run ev es s)
  unfolding run
  returned-append [] es' s = refl
  returned-append (e ∷ es) es' s = returned-append es es' (step ev e s)
