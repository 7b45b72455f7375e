-- ===== src/Drainer/Eviction/Fair/Rounds.antt =====
-- Under a fair schedule the eviction comes to its end.
use node_reaper.Base.{
  ℕ, ◌*◌, ◌≤◌, ◌<◌, ◌≡◌, ◌≢◌, refl, ◌∙◌, ◌⊎◌, inl, inr, none, List, [], ◌∷◌, ◌++◌, All, Some, arith,
  map, length, Option-cases, sym, subst, ap,
}
use node_reaper.Drainer.Api.{Pod, Call}
use node_reaper.Drainer.Eviction.{
  new_worker, Evictor, System, Event, run_worker, receive_error, receive_done, step, run, start,
}
use node_reaper.Drainer.Eviction.Outcome.{length-run, length-start}
use node_reaper.Drainer.Eviction.Timing.{step-returned, returned-append}
use node_reaper.Drainer.Eviction.Fair.{total_rank, potential, IsEnabled, IsRound, IsFinite}
use node_reaper.Drainer.Eviction.Fair.Alive.{
  IsAlive, step-IsAlive, start-IsAlive, IsAlive-IsEnabled,
}
use node_reaper.Drainer.Eviction.Fair.Steps.{Same-IsEnabled, step-Moves}

-- One round after the other.
abbrev pub concat : List (List Event) → List Event
concat [] = []
concat (es ∷ ess) = es ++ concat ess

module _ (ev : Evictor) (calm : IsFinite ev) where
  run-returned_stays :
      (es : List Event) (s : System) → s.returned ≢ none → (run ev es s).returned ≢ none
  unfolding run
  run-returned_stays [] s ended = ended
  run-returned_stays (e ∷ es) s ended = elim (Option-cases s.returned) [
    | inl waits ↦ absurd (ended waits)
    | inr (r, h) ↦
        run-returned_stays es (step ev e s) (λ waits. let same = step-returned ev e s r h in cc)
  ]

  -- The function has returned, or no more is left than `n`.
  abbrev EndsOr : (ℕ → ℕ → Type 0) → List Event → System → Type 0
  EndsOr R es s = ((run ev es s).returned ≢ none) ⊎ R (potential (run ev es s)) (potential s)

  run-potential : (es : List Event) (s : System) → EndsOr ◌≤◌ es s
  unfolding run
  run-potential [] s = inr (omega arith)
  run-potential (e ∷ es) s = elim (Option-cases s.returned) [
    | inr (r, h) ↦
        inl
          (run-returned_stays es (step ev e s) (λ waits. let same = step-returned ev e s r h in cc))
    | inl waits ↦ elim (step-Moves ev calm e s waits) [
      | inl ended ↦ inl (run-returned_stays es (step ev e s) ended)
      | inr (inl less) ↦ elim (run-potential es (step ev e s)) [
        | inl ended ↦ inl ended
        | inr le ↦ inr (omega arith)
      ]
      | inr (inr ((workers, done, errors, result), off)) ↦ elim (run-potential es (step ev e s)) [
        | inl ended ↦ inl ended
        | inr le ↦ inr (omega (arith, ap total_rank workers))
      ]
    ]
  ]

  -- What can be done when a part of a schedule begins, and has its turn in it, takes from what is left.
  run-enabled :
      (e : Event) (es : List Event) (s : System)
      → s.returned ≡ none
      → Some (λ x. x ≡ e) es
      → IsEnabled e s
      → EndsOr ◌<◌ es s
  unfolding run
  run-enabled e [] s waits turn on = elim turn [ ]
  run-enabled e (x ∷ es) s waits turn on = elim (step-Moves ev calm x s waits) [
    | inl ended ↦ inl (run-returned_stays es (step ev x s) ended)
    | inr (inl less) ↦ elim (run-potential es (step ev x s)) [
      | inl ended ↦ inl ended
      | inr le ↦ inr (omega arith)
    ]
    | inr (inr (same, off)) ↦ elim turn [
      | inl now ↦ absurd (off (subst (λ y. IsEnabled y s) (sym now) on))
      | inr later ↦
          let (workers, done, errors, result) = same in
          elim (run-enabled e es (step ev x s) (result ∙ waits) later
            (Same-IsEnabled e s (step ev x s) same on)) [
              | inl ended ↦ inl ended
              | inr less ↦ inr (omega (arith, ap total_rank workers))
            ]
    ]
  ]

  round-less :
      (es : List Event) (s : System)
      → IsAlive s
      → s.returned ≡ none
      → IsRound (length s.workers) es
      → EndsOr ◌<◌ es s
  round-less es s alive waits round = elim (IsAlive-IsEnabled s alive waits) [
    | inl on ↦ run-enabled receive_error es s waits round.errors on
    | inr (inl on) ↦ run-enabled receive_done es s waits round.values on
    | inr (inr (i, below, on)) ↦ run-enabled (run_worker i) es s waits (round.goroutines i below) on
  ]

  run-IsAlive : (es : List Event) (s : System) → IsAlive s → IsAlive (run ev es s)
  unfolding run
  run-IsAlive [] s h = h
  run-IsAlive (e ∷ es) s h = run-IsAlive es (step ev e s) (step-IsAlive ev e s h)

  rounds-return :
      (n : ℕ) (ess : List (List Event)) (s : System)
      → IsAlive s
      → length s.workers ≡ n
      → All (IsRound n) ess
      → potential s < length ess
      → (run ev (concat ess) s).returned ≢ none
  rounds-return n [] s alive same rounds enough = absurd (omega arith)
  rounds-return n (es ∷ ess) s alive same rounds enough =
      rw (returned-append ev es (concat ess) s) (elim (Option-cases s.returned) [
        | inr (r, h) ↦
            run-returned_stays (concat ess) (run ev es s)
              (run-returned_stays es s (λ waits. absurd (ground arith)))
        | inl waits ↦
            elim (round-less es s alive waits (subst (λ k. IsRound k es) (sym same) rounds.0)) [
              | inl ended ↦ run-returned_stays (concat ess) (run ev es s) ended
              | inr less ↦
                  rounds-return n ess (run ev es s) (run-IsAlive es s alive)
                    (length-run ev es s ∙ same) rounds.1 (omega arith)
            ]
      ])

  start-potential :
      (pods : List Pod) (calls : List Call) → potential (start pods calls) ≡ 6 * length pods
  unfolding start
  start-potential pods calls = omega (arith, go pods)
    where
      go : (ps : List Pod) → total_rank (map new_worker ps) ≡ 3 * length ps
      go [] = refl
      go (p ∷ ps) = omega (arith, go ps)

  -- The function comes to its end without the timeout, under any fair schedule, where every wait
  -- comes to an end and the server does not ask attempts to come again later: in each round every goroutine and both channels have a turn, in
  -- whatever order and with whatever else, and there are more than six rounds for each pod.
  pub fair-returns :
      (pods : List Pod) (calls : List Call) (ess : List (List Event))
      → All (IsRound (length pods)) ess
      → 6 * length pods < length ess
      → (run ev (concat ess) (start pods calls)).returned ≢ none
  fair-returns pods calls ess rounds enough =
      rounds-return (length pods) ess (start pods calls) (start-IsAlive pods calls)
        (length-start pods calls) rounds (omega (arith, start-potential pods calls))
