-- ===== src/Drainer/Eviction/Progress.antt =====
-- What a goroutine of an eviction can always do.
use node_reaper.Base.{
  ℕ, ◌+◌, ◌<◌, ◌≡◌, refl, true, false, Bool, some, none, List, [], ◌∷◌, ◌≢◌, arith, length,
  get_elem?, get_elem?-set, count_if, count_if-le, count_if-all,
}
use node_reaper.Base.Int.{ltb_ℤ, pos}
use node_reaper.Drainer.Api.{Pod, Call}
use node_reaper.Drainer.Eviction.{
  Worker, Evictor, System, Event, sending_done, finished, run_worker, receive_done, time_out, pass,
  step, run, start,
}
use node_reaper.Drainer.Eviction.Invariant.{
  has_finished, finished_workers, IsConsistent, schedule-IsConsistent,
}

-- A list with an element that fails a test has fewer that pass.
pub count_if-lt {ℓ} :
    {A : Type ℓ} (p : A → Bool) (xs : List A) (i : ℕ) {x : A}
    → get_elem? xs i ≡ some x
    → p x ≡ false
    → count_if p xs < length xs
count_if-lt p xs i at fails =
    ground (arith, count_if-le p xs, λ (e : count_if p xs ≡ length xs). count_if-all p xs i e at)

pub room :
    (s : System) (i : ℕ) (w : Worker)
    → IsConsistent s
    → get_elem? s.workers i ≡ some w
    → w.phase ≡ sending_done
    → s.done_ch < length s.workers
room s i w consistent at phase =
    let fewer : finished_workers s.workers < length s.workers =
      count_if-lt (λ (v : Worker). has_finished v.phase) s.workers i at (rw phase refl) in
    omega (arith, consistent.counted)

-- Whatever the schedule, also once the function has returned, a goroutine that sends on `doneCh` is
-- not blocked: its next step sends the value and finishes it.
pub sending_done-finishes :
    (ev : Evictor) (pods : List Pod) (calls : List Call) (es : List Event) (i : ℕ) (w : Worker)
    → get_elem? (run ev es (start pods calls)).workers i ≡ some w
    → w.phase ≡ sending_done
    → (get_elem? (step ev (run_worker i) (run ev es (start pods calls))).workers i
        ≡ some (record w { phase = finished }))
      × ((step ev (run_worker i) (run ev es (start pods calls))).done_ch
          ≡ (run ev es (start pods calls)).done_ch + 1)
unfolding step
sending_done-finishes ev pods calls es i w at phase =
    let s = run ev es (start pods calls) in
    let free = room s i w (schedule-IsConsistent ev pods calls es) at phase in
    rw (at, phase)
      (ground (arith, free, at, get_elem?-set s.workers i i (record w { phase = finished })))

-- After a value from `doneCh` that is not the last, the timeout starts again, however long the loop has
-- waited before: time below the timeout may pass, and the function has not returned.
pub receive_done-restarts :
    (ev : Evictor) (s : System) (d : ℕ)
    → s.returned ≡ none
    → 0 < s.done_ch
    → s.done_count + 1 ≢ length s.workers
    → ltb_ℤ (pos d) ev.nd.opts.timeout ≡ true
    → (run ev (receive_done ∷ pass d ∷ time_out ∷ []) s).returned ≡ none
unfolding run step
receive_done-restarts ev s d waiting sent more below = ground arith
