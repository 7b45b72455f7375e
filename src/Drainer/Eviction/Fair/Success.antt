-- ===== src/Drainer/Eviction/Fair/Success.antt =====
-- Under a fair schedule an eviction succeeds where the server is willing.
use node_reaper.Base.{
  ◌*◌, ◌<◌, ◌≡◌, ◌≢◌, refl, ◌∙◌, inl, inr, none, some, List, [], ◌∷◌, All, Error, length,
  Option-cases, sym,
}
use node_reaper.Drainer.Api.{Pod, Call}
use node_reaper.Drainer.Eviction.{
  Worker, Evictor, System, Event, run_worker, receive_error, receive_done, time_out, pass, step,
  run, start,
}
use node_reaper.Drainer.Eviction.Timing.{run_worker-keeps}
use node_reaper.Drainer.Eviction.Failure.{LearnsFailure, Fails, IsBlamed, IsBlamed-map}
use node_reaper.Drainer.Eviction.Failure.Returned.{
  receive_error-errors, receive_done-errors, pass-errors, step-IsBlamed, start-IsBlamed,
  start-unfailed,
}
use node_reaper.Drainer.Eviction.Fair.{IsRound, IsFinite, IsWilling}
use node_reaper.Drainer.Eviction.Fair.Rounds.{concat, fair-returns}

-- No error is about to be sent, in the channel or returned.
record IsClean (s : System) : Type 0 where
  blamed : IsBlamed (λ e. ⊥) s
  unfailed : (e : Error) → s.returned ≢ some (some e)

module _ (ev : Evictor) (willing : IsWilling ev) where
  IsWilling-IsFinite : IsFinite ev
  IsWilling-IsFinite = (
    (λ calls pod x refused. inl (willing.accepted calls pod x refused)),
    (λ calls pod waits. let over = willing.gone calls pod in cc),
  )

  willing_sound : (s : System) (w : Worker) (e : Error) → ¬ LearnsFailure ev s w e
  willing_sound s w e (x, inl (phase, refused, found, calm, place)) =
      let missing = willing.accepted s.calls w.pod x refused in cc
  willing_sound s w e (x, inr (phase, waits, place)) = let over = willing.gone s.calls w.pod in cc

  willing_unfailing : (x : Event) (s : System) (e : Error) → ¬ Fails ev e x s
  willing_unfailing (run_worker i) s e (w, at, learns) = willing_sound s w e learns
  willing_unfailing receive_error s e h = h
  willing_unfailing receive_done s e h = h
  willing_unfailing time_out s e h = h
  willing_unfailing (pass d) s e h = h

  step-unreturned :
      (x : Event) (s : System)
      → x ≢ time_out
      → IsClean s
      → (e : Error) → (step ev x s).returned ≢ some (some e)
  step-unreturned (run_worker i) s other h e r =
      let (returned', count', idle') = run_worker-keeps ev i s in h.unfailed e (sym returned' ∙ r)
  step-unreturned receive_error s other h e r = elim ((receive_error-errors ev s e).1 r) [
    | inl before ↦ h.unfailed e before
    | inr sent ↦ h.blamed.channel e sent
  ]
  step-unreturned receive_done s other h e r = h.unfailed e ((receive_done-errors ev s e).1 r)
  step-unreturned time_out s other h e r = other refl
  step-unreturned (pass d) s other h e r = h.unfailed e ((pass-errors ev d s e).1 r)

  step-IsClean : (x : Event) (s : System) → x ≢ time_out → IsClean s → IsClean (step ev x s)
  step-IsClean x s other h = record {
    blamed =
        IsBlamed-map (step ev x s)
          (λ e p. elim p [ inl before ↦ before | inr now ↦ willing_unfailing x s e now ])
          (step-IsBlamed ev (λ e. ⊥) x s h.blamed);
    unfailed = step-unreturned x s other h;
  }

  run-IsClean :
      (es : List Event) (s : System)
      → All (λ e. e ≢ time_out) es
      → IsClean s
      → IsClean (run ev es s)
  unfolding run
  run-IsClean [] s others h = h
  run-IsClean (x ∷ es) s others h =
      run-IsClean es (step ev x s) others.1 (step-IsClean x s others.0 h)

  -- If every attempt is accepted or does not find its pod, and every wait ends without an error, then under
  -- any fair schedule in which the timer does not go off the eviction returns success: in each round every
  -- goroutine and both channels have a turn, and there are more than six rounds for each pod.
  pub fair-succeeds :
      (pods : List Pod) (calls : List Call) (ess : List (List Event))
      → All (IsRound (length pods)) ess
      → 6 * length pods < length ess
      → All (λ e. e ≢ time_out) (concat ess)
      → (run ev (concat ess) (start pods calls)).returned ≡ some none
  fair-succeeds pods calls ess rounds enough others =
      let t = run ev (concat ess) (start pods calls) in
      let clean = run-IsClean (concat ess) (start pods calls) others (record {
        blamed = start-IsBlamed ev pods calls;
        unfailed = start-unfailed ev pods calls;
      }) in
      elim (Option-cases t.returned) [
        | inl waits ↦ absurd (fair-returns ev IsWilling-IsFinite pods calls ess rounds enough waits)
        | inr (none, success) ↦ success
        | inr (some e, failed_) ↦ absurd (clean.unfailed e failed_)
      ]
