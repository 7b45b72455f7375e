-- ===== src/Drainer/Eviction/Outcome.antt =====
-- What a returned success of an eviction says of the pods.
use node_reaper.Base.{
  ℕ, zero, suc, ◌≡◌, refl, inl, inr, true, none, some, List, [], ◌∷◌, arith, length, get_elem?, ap,
  length-set, count_if-all, count_if-le, map, Option-cases, subst, ◌∙◌,
}
use node_reaper.Drainer.Api.{Pod, Call}
use node_reaper.Drainer.Eviction.{
  Phase, trying, waiting, sending_done, finished, sending_error, failed, Worker, new_worker,
  Evictor, System, Event, run_worker, receive_error, receive_done, time_out, pass, step_worker,
  step, run, start,
}
use node_reaper.Drainer.Eviction.History.{is_done, Confirmed, run-Before}
use node_reaper.Drainer.Eviction.Invariant.{has_finished, IsConsistent, schedule-IsConsistent}

length-step_worker :
    (ev : Evictor) (i : ℕ) (w : Worker) (p : Phase) (s : System)
    → length (step_worker ev i w p s).workers ≡ length s.workers
unfolding step_worker
length-step_worker ev i w trying s = length-set s.workers i _
length-step_worker ev i w waiting s = length-set s.workers i _
length-step_worker ev i w sending_done s =
    ground (arith, length-set s.workers i (record w { phase = finished }))
length-step_worker ev i w (sending_error e) s =
    ground (arith, length-set s.workers i (record w { phase = failed }))
length-step_worker ev i w finished s = refl
length-step_worker ev i w failed s = refl

pub length-step :
    (ev : Evictor) (e : Event) (s : System) → length (step ev e s).workers ≡ length s.workers
unfolding step
length-step ev (run_worker i) s = elim (Option-cases (get_elem? s.workers i)) [
  | inl nobody ↦ rw nobody
  | inr (w, at) ↦ rw at (length-step_worker ev i w w.phase s)
]
length-step ev receive_error s = ground arith
length-step ev receive_done s = ground arith
length-step ev time_out s = ground arith
length-step ev (pass d) s = ground arith

pub length-run :
    (ev : Evictor) (es : List Event) (s : System) → length (run ev es s).workers ≡ length s.workers
unfolding run
length-run ev [] s = refl
length-run ev (e ∷ es) s = length-run ev es (step ev e s) ∙ length-step ev e s

get_elem?-map_new :
    (pods : List Pod) (i : ℕ) (w : Worker)
    → get_elem? (map new_worker pods) i ≡ some w
    → (q : Pod) × (get_elem? pods i ≡ some q) × (w ≡ new_worker q)
get_elem?-map_new [] i w h = cc
get_elem?-map_new (pod ∷ pods) zero w h = (pod, refl, ground arith)
get_elem?-map_new (pod ∷ pods) (suc i) w h = get_elem?-map_new pods i w h

-- A list as long as another has an element wherever that has one.
get_elem?-same_length {ℓ κ} :
    {A : Type ℓ} {B : Type κ} (xs : List A) (ys : List B) (i : ℕ) {y : B}
    → length xs ≡ length ys
    → get_elem? ys i ≡ some y
    → (x : A) × (get_elem? xs i ≡ some x)
get_elem?-same_length xs [] i same h = cc
get_elem?-same_length [] (y ∷ ys) i same h = absurd (omega arith)
get_elem?-same_length (x ∷ xs) (y ∷ ys) zero same h = (x, refl)
get_elem?-same_length (x ∷ xs) (y ∷ ys) (suc i) same h =
    get_elem?-same_length xs ys i (omega arith) h

pub length-start :
    (pods : List Pod) (calls : List Call) → length (start pods calls).workers ≡ length pods
unfolding start
length-start pods calls = go pods
  where
    go : (ps : List Pod) → length (map new_worker ps) ≡ length ps
    go [] = refl
    go (p ∷ ps) = ap suc (go ps)

-- A finished goroutine is done; a new one is not.
finished-is_done : (p : Phase) → has_finished p ≡ true → is_done p ≡ true
finished-is_done finished h = refl
finished-is_done trying h = cc
finished-is_done waiting h = cc
finished-is_done sending_done h = cc
finished-is_done (sending_error e) h = cc
finished-is_done failed h = cc

start-worker :
    (pods : List Pod) (calls : List Call) (i : ℕ) (pod : Pod) (w : Worker)
    → get_elem? pods i ≡ some pod
    → get_elem? (start pods calls).workers i ≡ some w
    → w ≡ new_worker pod
unfolding start
start-worker pods calls i pod w at h =
    let (q, found, new) = get_elem?-map_new pods i w h in ground arith

-- When success is returned, goroutine `i` has finished.
pub success-finished :
    (s : System) (i : ℕ) (w : Worker)
    → IsConsistent s
    → s.returned ≡ some none
    → get_elem? s.workers i ≡ some w
    → has_finished w.phase ≡ true
success-finished s i w consistent success at =
    count_if-all (λ x. has_finished x.phase) s.workers i
      (omega (
        arith,
        consistent.success success,
        count_if-le (λ (x : Worker). has_finished x.phase) s.workers,
      ))
      at

-- A goroutine that has finished under a schedule has learnt in it that its pod is gone.
pub finished-Confirmed :
    (ev : Evictor) (pods : List Pod) (calls : List Call) (es : List Event) (i : ℕ) (pod : Pod)
    (w' : Worker)
    → get_elem? pods i ≡ some pod
    → get_elem? (run ev es (start pods calls)).workers i ≡ some w'
    → has_finished w'.phase ≡ true
    → Confirmed ev i pod es (start pods calls)
finished-Confirmed ev pods calls es i pod w' at there done =
    let (w, before, same, either) =
      run-Before ev es (start pods calls) i w' there (finished-is_done w'.phase done) in
    let new = start-worker pods calls i pod w at before in
    elim either [
      | inl early ↦ absurd (ground arith)
      | inr confirmed ↦
          subst (λ (p : Pod). Confirmed ev i p es (start pods calls)) (ground arith) confirmed
    ]

-- The goroutine of a pod, whatever has happened.
pub run-worker :
    (ev : Evictor) (pods : List Pod) (calls : List Call) (es : List Event) (i : ℕ) (pod : Pod)
    → get_elem? pods i ≡ some pod
    → (w : Worker) × (get_elem? (run ev es (start pods calls)).workers i ≡ some w)
run-worker ev pods calls es i pod at =
    get_elem?-same_length (run ev es (start pods calls)).workers pods i
      (length-run ev es (start pods calls) ∙ length-start pods calls) at

-- When success is returned under a schedule, the goroutine of every pod has learnt in it that the pod
-- is gone: by an attempt that did not find it, or by a wait that ended without an error.
pub success-Confirmed :
    (ev : Evictor) (pods : List Pod) (calls : List Call) (es : List Event) (i : ℕ) (pod : Pod)
    → (run ev es (start pods calls)).returned ≡ some none
    → get_elem? pods i ≡ some pod
    → Confirmed ev i pod es (start pods calls)
success-Confirmed ev pods calls es i pod success at =
    let s' = run ev es (start pods calls) in
    let (w', there) = run-worker ev pods calls es i pod at in
    let done = success-finished s' i w' (schedule-IsConsistent ev pods calls es) success there in
    finished-Confirmed ev pods calls es i pod w' at there done
