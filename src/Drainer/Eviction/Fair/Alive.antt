-- ===== src/Drainer/Eviction/Fair/Alive.antt =====
-- While the function has not returned, something can be done.
use node_reaper.Base.{
  ℕ, zero, suc, ltb, ◌<◌, ◌≡◌, refl, ◌∙◌, ◌⊎◌, inl, inr, Bool, true, false, Option, none, some,
  List, [], ◌∷◌, arith, Error, length, get_elem?, set, count_if, count_if-set, map, Option-cases,
  Bool-cases, sym,
}
use node_reaper.Drainer.Api.{Pod, Call}
use node_reaper.Drainer.Eviction.{
  Phase, trying, waiting, sending_done, finished, sending_error, failed, Worker, new_worker,
  Evictor, System, Event, run_worker, receive_error, receive_done, time_out, pass, after_attempt,
  after_wait, run_at, step_worker, step, start,
}
use node_reaper.Drainer.Eviction.Invariant.{
  has_finished, finished_workers, IsConsistent, step-IsConsistent, start-IsConsistent,
}
use node_reaper.Drainer.Eviction.Outcome.{length-step}
use node_reaper.Drainer.Eviction.Timing.{run_worker-keeps}
use node_reaper.Drainer.Eviction.Fair.{CanGo, IsEnabled}

abbrev has_failed : Phase → Bool
has_failed failed = true
has_failed _ = false

abbrev failed_workers : List Worker → ℕ
failed_workers = count_if (λ w. has_failed w.phase)

-- Beside the counts: the loop waits for a value that is missing, and if no error is in the channel no
-- goroutine has failed.
pub record IsAlive (s : System) : Type 0 where
  pub consistent : IsConsistent s
  pub missing : s.returned ≡ none → s.done_count < length s.workers
  pub unfailed : s.returned ≡ none → s.err_ch ≡ none → failed_workers s.workers ≡ 0

after_attempt-unfailed :
    (ev : Evictor) (r : Option Error) → has_failed (after_attempt ev.nd.api r) ≡ false
after_attempt-unfailed ev none = refl
after_attempt-unfailed ev (some e) = ground arith

after_wait-unfailed : (r : Option (Option Error)) → has_failed (after_wait r) ≡ false
after_wait-unfailed none = refl
after_wait-unfailed (some none) = refl
after_wait-unfailed (some (some e)) = refl

-- A new phase that is no failure adds none.
move-failed :
    (s : System) (i : ℕ) (w : Worker) (q : Phase)
    → get_elem? s.workers i ≡ some w
    → has_failed q ≡ false
    → failed_workers s.workers ≡ 0
    → failed_workers (set s.workers i (record w { phase = q })) ≡ 0
move-failed s i w q at sound none_ =
    ground (arith, count_if-set (λ x. has_failed x.phase) s.workers i (record w { phase = q }) at)

step_worker-unfailed :
    (ev : Evictor) (i : ℕ) (w : Worker) (p : Phase) (s : System)
    → get_elem? s.workers i ≡ some w
    → (s.err_ch ≡ none → failed_workers s.workers ≡ 0)
    → (step_worker ev i w p s).err_ch ≡ none
    → failed_workers (step_worker ev i w p s).workers ≡ 0
unfolding step_worker
step_worker-unfailed ev i w trying s at h empty =
    move-failed s i w _ at (after_attempt-unfailed ev _) (h empty)
step_worker-unfailed ev i w waiting s at h empty =
    move-failed s i w _ at (after_wait-unfailed _) (h empty)
step_worker-unfailed ev i w sending_done s at h empty =
    ground (arith, h (ground arith), move-failed s i w finished at refl)
step_worker-unfailed ev i w (sending_error e) s at h empty = ground arith
step_worker-unfailed ev i w finished s at h empty = h empty
step_worker-unfailed ev i w failed s at h empty = h empty

run_at-unfailed :
    (ev : Evictor) (i : ℕ) (o : Option Worker) (s : System)
    → get_elem? s.workers i ≡ o
    → (s.err_ch ≡ none → failed_workers s.workers ≡ 0)
    → (run_at ev i o s).err_ch ≡ none
    → failed_workers (run_at ev i o s).workers ≡ 0
run_at-unfailed ev i none s at h empty = h empty
run_at-unfailed ev i (some w) s at h empty = step_worker-unfailed ev i w w.phase s at h empty

step-missing :
    (ev : Evictor) (e : Event) (s : System)
    → (s.returned ≡ none → s.done_count < length s.workers)
    → (step ev e s).returned ≡ none
    → (step ev e s).done_count < length (step ev e s).workers
unfolding step
step-missing ev (run_worker i) s h waits =
    let (returned', count', idle') = run_worker-keeps ev i s in
    let before : s.done_count < length s.workers = h (sym returned' ∙ waits) in
    omega (arith, length-step ev (run_worker i) s, count')
step-missing ev receive_error s h waits = ground (arith, h (ground arith))
step-missing ev receive_done s h waits = ground (arith, h (ground arith))
step-missing ev time_out s h waits = ground (arith, h (ground arith))
step-missing ev (pass d) s h waits = ground (arith, h (ground arith))

step-unfailed :
    (ev : Evictor) (e : Event) (s : System)
    → (s.returned ≡ none → s.err_ch ≡ none → failed_workers s.workers ≡ 0)
    → (step ev e s).returned ≡ none
    → (step ev e s).err_ch ≡ none
    → failed_workers (step ev e s).workers ≡ 0
unfolding step
step-unfailed ev (run_worker i) s h waits empty =
    let (returned', count', idle') = run_worker-keeps ev i s in
    let runs : s.returned ≡ none = sym returned' ∙ waits in
    run_at-unfailed ev i (get_elem? s.workers i) s refl (h runs) empty
step-unfailed ev receive_error s h waits empty = ground (arith, h (ground arith) (ground arith))
step-unfailed ev receive_done s h waits empty = ground (arith, h (ground arith) (ground arith))
step-unfailed ev time_out s h waits empty = ground (arith, h (ground arith) (ground arith))
step-unfailed ev (pass d) s h waits empty = ground (arith, h (ground arith) (ground arith))

pub step-IsAlive : (ev : Evictor) (e : Event) (s : System) → IsAlive s → IsAlive (step ev e s)
step-IsAlive ev e s h = record {
  consistent = step-IsConsistent ev e s h.consistent;
  missing = step-missing ev e s h.missing;
  unfailed = step-unfailed ev e s h.unfailed;
}

new-failed : (pods : List Pod) → failed_workers (map new_worker pods) ≡ 0
new-failed [] = refl
new-failed (pod ∷ pods) = new-failed pods

pub start-IsAlive : (pods : List Pod) (calls : List Call) → IsAlive (start pods calls)
unfolding start
start-IsAlive pods calls = record {
  consistent = start-IsConsistent pods calls;
  missing = start-missing pods calls;
  unfailed = λ waits empty. new-failed pods;
}
  where
    start-missing :
        (ps : List Pod) (cs : List Call)
        → (start ps cs).returned ≡ none
        → (start ps cs).done_count < length (start ps cs).workers
    start-missing [] cs waits = cc
    start-missing (p ∷ ps) cs waits = omega arith

get_elem?-lt {ℓ} :
    {A : Type ℓ} (xs : List A) (i : ℕ) {x : A} → get_elem? xs i ≡ some x → i < length xs
get_elem?-lt [] i at = cc
get_elem?-lt (y ∷ xs) zero at = omega arith
get_elem?-lt (y ∷ xs) (suc i) at = omega (arith, get_elem?-lt xs i at)

-- A goroutine that has neither finished nor failed is among those that are too few to be finished.
unfinished :
    (ws : List Worker)
    → finished_workers ws < length ws
    → failed_workers ws ≡ 0
    → (i : ℕ) × (w : Worker) × (get_elem? ws i ≡ some w)
      × (has_finished w.phase ≡ false)
      × (has_failed w.phase ≡ false)
unfinished [] few sound = absurd (omega arith)
unfinished (w ∷ ws) few sound = elim (Bool-cases (has_finished w.phase)) [
  | inr unfinished_ ↦ (zero, w, refl, unfinished_, ground arith)
  | inl done ↦
      let (i, v, at, open_, sound') = unfinished ws (ground arith) (ground arith) in
      (suc i, v, at, open_, sound')
]

-- It is not blocked if both channels are empty.
unblocked :
    (p : Phase) (s : System)
    → has_finished p ≡ false
    → has_failed p ≡ false
    → s.err_ch ≡ none
    → ltb s.done_ch (length s.workers) ≡ true
    → CanGo p s
unblocked trying s open_ sound empty free = tt
unblocked waiting s open_ sound empty free = tt
unblocked sending_done s open_ sound empty free = free
unblocked (sending_error e) s open_ sound empty free = empty
unblocked finished s open_ sound empty free = cc
unblocked failed s open_ sound empty free = cc

-- A value can be received, or a goroutine can go on.
pub IsAlive-IsEnabled :
    (s : System)
    → IsAlive s
    → s.returned ≡ none
    → IsEnabled receive_error s
      ⊎ IsEnabled receive_done s
      ⊎ ((i : ℕ) × (i < length s.workers) × IsEnabled (run_worker i) s)
IsAlive-IsEnabled s h waits = elim (Option-cases s.err_ch) [
  | inr (e, full) ↦ inl (λ empty. ground arith)
  | inl empty ↦ elim (Bool-cases (ltb 0 s.done_ch)) [
    | inl some_ ↦ inr (inl (ground arith))
    | inr none_ ↦
        let gap = h.missing waits in
        let (i, w, at, open_, sound) =
          unfinished s.workers (ground (arith, h.consistent.counted)) (h.unfailed waits empty) in
        inr (
          inr (
            i,
            get_elem?-lt s.workers i at,
            (w, at, unblocked w.phase s open_ sound empty (ground arith)),
          ))
  ]
]
