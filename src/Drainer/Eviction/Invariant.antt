-- ===== src/Drainer/Eviction/Invariant.antt =====
-- What holds between two steps of an eviction: every value sent on `doneCh` is a goroutine that has
-- finished, and it is in the channel or counted.
use node_reaper.Base.{
  ℕ, ◌+◌, ◌≡◌, refl, inl, inr, Bool, true, false, Option, none, some, List, [], ◌∷◌, arith, Error,
  length, length-set, get_elem?, set, count_if, count_if-set, map, Option-cases, if◌then◌else◌,
}
use node_reaper.Drainer.Api.{Pod, Call}
use node_reaper.Drainer.{wait_for_delete}
use node_reaper.Drainer.Eviction.{
  attempt, answers, Phase, trying, waiting, sending_done, finished, sending_error, failed, Worker,
  new_worker, Evictor, System, Event, run_worker, receive_error, receive_done, time_out, pass,
  after_attempt, after_wait, step_worker, step, run, start,
}

abbrev pub has_finished : Phase → Bool
has_finished finished = true
has_finished _ = false

abbrev pub finished_workers : List Worker → ℕ
finished_workers = count_if (λ w. has_finished w.phase)

pub record IsConsistent (s : System) : Type 0 where
  pub counted : s.done_ch + s.done_count ≡ finished_workers s.workers
  pub success : s.returned ≡ some none → s.done_count ≡ length s.workers

after_attempt-unfinished :
    (ev : Evictor) (r : Option Error) → has_finished (after_attempt ev.nd.api r) ≡ false
after_attempt-unfinished ev none = refl
after_attempt-unfinished ev (some e) = ground arith

after_wait-unfinished : (r : Option (Option Error)) → has_finished (after_wait r) ≡ false
after_wait-unfinished none = refl
after_wait-unfinished (some none) = refl
after_wait-unfinished (some (some e)) = refl

-- A new phase for goroutine `i` that has not finished.
move-finished :
    (s : System) (i : ℕ) (w : Worker) (p : Phase)
    → get_elem? s.workers i ≡ some w
    → has_finished w.phase ≡ false
    → finished_workers (set s.workers i (record w { phase = p }))
      ≡ finished_workers s.workers + (if has_finished p then 1 else 0)
move-finished s i w p at unfinished =
    ground (arith, count_if-set (λ x. has_finished x.phase) s.workers i (record w { phase = p }) at)

step_worker-IsConsistent :
    (ev : Evictor) (s : System) (i : ℕ) (w : Worker) (p : Phase)
    → get_elem? s.workers i ≡ some w
    → w.phase ≡ p
    → IsConsistent s
    → IsConsistent (step_worker ev i w p s)
unfolding step_worker
step_worker-IsConsistent ev s i w trying at e h =
    let p = after_attempt ev.nd.api (attempt ev w.pod s.calls).0 in
    ground (
      arith,
      move-finished s i w p at,
      length-set s.workers i (record w { phase = p }),
      after_attempt-unfinished ev (attempt ev w.pod s.calls).0,
    )
step_worker-IsConsistent ev s i w waiting at e h =
    let r = wait_for_delete ev.nd.api ev.nd.poll w.pod (answers ev s.calls w.pod) in
    ground (
      arith,
      move-finished s i w (after_wait r) at,
      length-set s.workers i (record w { phase = after_wait r }),
      after_wait-unfinished r,
    )
step_worker-IsConsistent ev s i w sending_done at e h =
    ground (
      arith,
      move-finished s i w finished at,
      length-set s.workers i (record w { phase = finished }),
    )
step_worker-IsConsistent ev s i w (sending_error x) at e h =
    ground
      (arith, move-finished s i w failed at, length-set s.workers i (record w { phase = failed }))
step_worker-IsConsistent ev s i w finished at e h = h
step_worker-IsConsistent ev s i w failed at e h = h

-- Every step keeps the count of finished goroutines, and success only where all have finished.
pub step-IsConsistent :
    (ev : Evictor) (e : Event) (s : System) → IsConsistent s → IsConsistent (step ev e s)
unfolding step
step-IsConsistent ev (run_worker i) s h = elim (Option-cases (get_elem? s.workers i)) [
  | inl nobody ↦ rw nobody h
  | inr (w, at) ↦ rw at (step_worker-IsConsistent ev s i w w.phase at refl h)
]
step-IsConsistent ev receive_error s h = ground arith
step-IsConsistent ev receive_done s h = ground arith
step-IsConsistent ev time_out s h = ground arith
step-IsConsistent ev (pass d) s h = ground arith

run-IsConsistent :
    (ev : Evictor) (es : List Event) (s : System) → IsConsistent s → IsConsistent (run ev es s)
unfolding run
run-IsConsistent ev [] s h = h
run-IsConsistent ev (e ∷ es) s h = run-IsConsistent ev es (step ev e s) (step-IsConsistent ev e s h)

new-finished : (pods : List Pod) → finished_workers (map new_worker pods) ≡ 0
new-finished [] = refl
new-finished (pod ∷ pods) = new-finished pods

pub start-IsConsistent : (pods : List Pod) (calls : List Call) → IsConsistent (start pods calls)
unfolding start
start-IsConsistent [] calls = ground arith
start-IsConsistent (pod ∷ pods) calls = ground (arith, new-finished pods)

-- Whatever the schedule, the values in `doneCh` and those received are the goroutines that have
-- finished, and success is returned only when as many have been received as there are goroutines.
pub schedule-IsConsistent :
    (ev : Evictor) (pods : List Pod) (calls : List Call) (es : List Event)
    → IsConsistent (run ev es (start pods calls))
schedule-IsConsistent ev pods calls es =
    run-IsConsistent ev es (start pods calls) (start-IsConsistent pods calls)
