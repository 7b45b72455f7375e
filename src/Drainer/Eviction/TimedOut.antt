-- ===== src/Drainer/Eviction/TimedOut.antt =====
-- The timeout of `evictOrDeletePods` in pkg/drainer/drain.go.
use node_reaper.Base.{
  ℕ, ◌≡◌, ◌≢◌, ◌⊎◌, refl, inl, inr, false, Option, none, some, List, [], ◌∷◌, ◌++◌, All, arith,
  Error, failure, drain_timed_out, get_elem?,
}
use node_reaper.Base.Int.{pos}
use node_reaper.Drainer.Api.{Pod, Call}
use node_reaper.Drainer.Eviction.{
  Worker, Evictor, Event, System, run_worker, receive_error, receive_done, time_out, pass, step,
  run, start,
}
use node_reaper.Drainer.Eviction.Invariant.{has_finished, schedule-IsConsistent}
use node_reaper.Drainer.Eviction.Outcome.{success-finished}
use node_reaper.Drainer.Eviction.Timing.{run_worker-keeps, step-returned, returned-append}

abbrev timed_out : Option Error
timed_out = some (failure drain_timed_out [])

-- The function still waits, or it has returned success or the timeout.
abbrev IsUnfailed : System → Type 0
IsUnfailed s = (s.returned ≡ none) ⊎ (s.returned ≡ some none) ⊎ (s.returned ≡ some timed_out)

module _ (ev : Evictor) where
  step-IsUnfailed :
      (e : Event) (s : System) → e ≢ receive_error → IsUnfailed s → IsUnfailed (step ev e s)
  unfolding step
  step-IsUnfailed (run_worker i) s other h = ground (arith, run_worker-keeps ev i s)
  step-IsUnfailed receive_error s other h = absurd (other refl)
  step-IsUnfailed receive_done s other h = ground arith
  step-IsUnfailed time_out s other h = ground arith
  step-IsUnfailed (pass d) s other h = ground arith

  run-IsUnfailed :
      (es : List Event) (s : System)
      → All (λ e. e ≢ receive_error) es
      → IsUnfailed s
      → IsUnfailed (run ev es s)
  unfolding run
  run-IsUnfailed [] s others h = h
  run-IsUnfailed (e ∷ es) s others h =
      run-IsUnfailed es (step ev e s) others.1 (step-IsUnfailed e s others.0 h)

  start-IsUnfailed : (pods : List Pod) (calls : List Call) → IsUnfailed (start pods calls)
  unfolding start
  start-IsUnfailed [] calls = inr (inl refl)
  start-IsUnfailed (pod ∷ pods) calls = inl refl

  late :
      (s : System) (t : ℕ)
      → ev.nd.opts.timeout ≡ pos t
      → s.returned ≡ none
      → (run ev (pass t ∷ time_out ∷ []) s).returned ≡ some timed_out
  unfolding run step
  late s t limit runs = ground arith

  late_already :
      (s : System) (t : ℕ)
      → s.returned ≡ some timed_out
      → (run ev (pass t ∷ time_out ∷ []) s).returned ≡ some timed_out
  unfolding run
  late_already s t h =
      step-returned ev time_out (step ev (pass t) s) timed_out
        (step-returned ev (pass t) s timed_out h)

  -- Whatever the goroutines and the loop have done, if no error was received and a goroutine is not at its end,
  -- as that of a pod that never goes: when a timeout that is not negative then passes in the loop and its timer
  -- goes off, the function has returned that the drain timed out.
  pub run-times_out :
      (pods : List Pod) (calls : List Call) (es : List Event) (t i : ℕ) (w : Worker)
      → ev.nd.opts.timeout ≡ pos t
      → All (λ e. e ≢ receive_error) es
      → get_elem? (run ev es (start pods calls)).workers i ≡ some w
      → has_finished w.phase ≡ false
      → (run ev (es ++ pass t ∷ time_out ∷ []) (start pods calls)).returned
        ≡ some (some (failure drain_timed_out []))
  run-times_out pods calls es t i w limit others at unfinished =
      let s = run ev es (start pods calls) in
      rw (returned-append ev es (pass t ∷ time_out ∷ []) (start pods calls))
        (elim (run-IsUnfailed es (start pods calls) others (start-IsUnfailed pods calls)) [
          | inl waits ↦ late s t limit waits
          | inr (inl success) ↦
              let done =
                success-finished s i w (schedule-IsConsistent ev pods calls es) success at in
              absurd (ground arith)
          | inr (inr over) ↦ late_already s t over
        ])
