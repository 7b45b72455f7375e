-- ===== src/Drainer/Eviction/Fair/Steps.antt =====
-- What a step does to the work that is left.
use node_reaper.Base.{
  ℕ, zero, suc, ltb, ◌+◌, ◌*◌, ◌≤◌, ◌<◌, ◌≡◌, ◌≢◌, refl, ◌∙◌, ◌⊎◌, inl, inr, true, false, Option,
  none, some, List, [], ◌∷◌, arith, Error, length, get_elem?, set, Option-cases, Bool-cases, sym,
  subst, ap,
}
use node_reaper.Base.Int.{pos, leb_ℤ}
use node_reaper.Drainer.Api.{ApiErrors}
use node_reaper.Drainer.{wait_for_delete}
use node_reaper.Drainer.Eviction.{
  attempt, answers, Phase, trying, waiting, sending_done, finished, sending_error, failed, Worker,
  Evictor, System, Event, run_worker, receive_error, receive_done, time_out, pass, after_attempt,
  after_wait, run_at, step_worker, step,
}
use node_reaper.Drainer.Eviction.Fair.{rank, total_rank, potential, CanGo, IsEnabled, IsFinite}

total_rank-set :
    (ws : List Worker) (i : ℕ) (v : Worker) {w : Worker}
    → get_elem? ws i ≡ some w
    → total_rank (set ws i v) + rank w.phase ≡ total_rank ws + rank v.phase
total_rank-set [] i v at = cc
total_rank-set (x ∷ ws) zero v at = ground arith
total_rank-set (x ∷ ws) (suc i) v at = omega (arith, total_rank-set ws i v at)

rank-after_attempt :
    (api : ApiErrors) (r : Option Error)
    → ((x : Error)
        → r ≡ some x
        → (api.is_not_found (some x) ≡ true) ⊎ (api.is_too_many_requests (some x) ≡ false))
    → rank (after_attempt api r) ≤ 2
rank-after_attempt api none calm = omega arith
rank-after_attempt api (some e) calm = elim (calm e refl) [
  | inl missing ↦ ground arith
  | inr calm_ ↦ ground arith
]

rank-after_wait : (r : Option (Option Error)) → r ≢ none → rank (after_wait r) ≤ 1
rank-after_wait none ends = absurd (ends refl)
rank-after_wait (some none) ends = omega arith
rank-after_wait (some (some e)) ends = omega arith

-- Two states between which nothing has moved; time may have passed.
abbrev pub Same : System → System → Type 0
Same s t =
    (t.workers ≡ s.workers)
    × (t.done_ch ≡ s.done_ch)
    × (t.err_ch ≡ s.err_ch)
    × (t.returned ≡ s.returned)

-- What can be done still can.
pub Same-IsEnabled : (e : Event) (s t : System) → Same s t → IsEnabled e s → IsEnabled e t
Same-IsEnabled (run_worker i) s t (workers, done, errors, result) (w, at, go) =
    (w, rw workers at, CanGo-Same w.phase go)
  where
    CanGo-Same : (p : Phase) → CanGo p s → CanGo p t
    CanGo-Same trying go = tt
    CanGo-Same waiting go = tt
    CanGo-Same sending_done go = rw done (rw workers go)
    CanGo-Same (sending_error e) go = errors ∙ go
    CanGo-Same finished go = go
    CanGo-Same failed go = go
Same-IsEnabled receive_error s t (workers, done, errors, result) full =
    λ empty. full (sym errors ∙ empty)
Same-IsEnabled receive_done s t (workers, done, errors, result) there = omega arith
Same-IsEnabled time_out s t same h = h
Same-IsEnabled (pass d) s t same h = h

-- A step ends the function, takes from the work that is left, or could not be done and changes nothing.
abbrev pub Moves : Event → System → System → Type 0
Moves e s t = (t.returned ≢ none) ⊎ (potential t < potential s) ⊎ (Same s t × ¬ IsEnabled e s)

module _ (ev : Evictor) (calm : IsFinite ev) where
  move-potential :
      (s t : System) (i : ℕ) (w : Worker) (q : Phase)
      → get_elem? s.workers i ≡ some w
      → t.workers ≡ set s.workers i (record w { phase = q })
      → t.done_ch + 2 * rank q < s.done_ch + 2 * rank w.phase
      → potential t < potential s
  move-potential s t i w q at moved less =
      let total = total_rank-set s.workers i (record w { phase = q }) at in
      omega (arith, total, ap total_rank moved)

  step_worker-Moves :
      (i : ℕ) (w : Worker) (p : Phase) (s : System)
      → get_elem? s.workers i ≡ some w
      → w.phase ≡ p
      → (potential (step_worker ev i w p s) < potential s)
        ⊎ (Same s (step_worker ev i w p s) × ¬ CanGo p s)
  unfolding step_worker
  step_worker-Moves i w trying s at phase =
      let q = after_attempt ev.nd.api (attempt ev w.pod s.calls).0 in
      inl (
        move-potential s (step_worker ev i w trying s) i w q at refl (
          omega (
            arith,
            rank-after_attempt ev.nd.api (attempt ev w.pod s.calls).0 (calm.0 s.calls w.pod),
            ap rank phase,
          )))
  step_worker-Moves i w waiting s at phase =
      let q = after_wait (wait_for_delete ev.nd.api ev.nd.poll w.pod (answers ev s.calls w.pod)) in
      inl (
        move-potential s (step_worker ev i w waiting s) i w q at refl (
          omega (
            arith,
            rank-after_wait (wait_for_delete ev.nd.api ev.nd.poll w.pod (answers ev s.calls w.pod))
                (calm.1 s.calls w.pod),
            ap rank phase,
          )))
  step_worker-Moves i w sending_done s at phase =
      elim (Bool-cases (ltb s.done_ch (length s.workers))) [
        | inl free ↦ inl (
            move-potential s (step_worker ev i w sending_done s) i w finished at (ground arith)
              (ground (arith, ap rank phase)))
        | inr full ↦
            inr ((ground arith, ground arith, ground arith, ground arith), λ go. ground arith)
      ]
  step_worker-Moves i w (sending_error e) s at phase = elim (Option-cases s.err_ch) [
    | inl free ↦ inl (
        move-potential s (step_worker ev i w (sending_error e) s) i w failed at (ground arith)
          (ground (arith, ap rank phase)))
    | inr (x, full) ↦
        inr ((ground arith, ground arith, ground arith, ground arith), λ go. ground arith)
  ]
  step_worker-Moves i w finished s at phase = inr ((refl, refl, refl, refl), λ go. go)
  step_worker-Moves i w failed s at phase = inr ((refl, refl, refl, refl), λ go. go)

  run_at-Moves :
      (i : ℕ) (o : Option Worker) (s : System)
      → get_elem? s.workers i ≡ o
      → Moves (run_worker i) s (run_at ev i o s)
  run_at-Moves i none s at = inr (inr ((refl, refl, refl, refl), λ (w, there, go). ground arith))
  run_at-Moves i (some w) s at = elim (step_worker-Moves i w w.phase s at refl) [
    | inl less ↦ inr (inl less)
    | inr (same, blocked) ↦ inr (
        inr (
          same,
          λ (v, there, go).
              let same_worker : v ≡ w = cc in
              blocked (subst (λ (x : Worker). CanGo x.phase s) same_worker go),
        ))
  ]

  pub step-Moves : (e : Event) (s : System) → s.returned ≡ none → Moves e s (step ev e s)
  unfolding step
  step-Moves (run_worker i) s runs = run_at-Moves i (get_elem? s.workers i) s refl
  step-Moves receive_error s runs = elim (Option-cases s.err_ch) [
    | inl empty ↦
        inr (inr ((ground arith, ground arith, ground arith, ground arith), λ full. full empty))
    | inr (e, there) ↦ inl (λ h. ground arith)
  ]
  step-Moves receive_done s runs = elim (Bool-cases (ltb 0 s.done_ch)) [
    | inl there ↦ inr (inl (ground arith))
    | inr empty ↦
        inr (inr ((ground arith, ground arith, ground arith, ground arith), λ full. ground arith))
  ]
  step-Moves time_out s runs = elim (Bool-cases (leb_ℤ ev.nd.opts.timeout (pos s.idle))) [
    | inl late ↦ inl (λ h. ground arith)
    | inr early ↦ inr (inr ((ground arith, ground arith, ground arith, ground arith), λ h. h))
  ]
  step-Moves (pass d) s runs =
      inr (inr ((ground arith, ground arith, ground arith, ground arith), λ h. h))
