-- ===== src/Examples/Timing.antt =====
-- The time that the eviction of `Examples.Draining` may take.
use node_reaper.Base.{◌≡◌, ◌≤◌, ◌*◌, refl, List, [], ◌∷◌, bytes_eq, length}
use node_reaper.Drainer.{is_deleted, wait_for_delete}
use node_reaper.Drainer.Eviction.{
  Event, attempt, run_worker, receive_done, pass, time_out, run, start, step,
}
use node_reaper.Drainer.Eviction.Timing.{spent, IsPrompt, spent-bounds}
use node_reaper.Examples.Draining.{ev, web, batch}

-- The second pod is done after almost the timeout, and then the first one keeps the loop waiting until
-- the timer goes off.
abbrev slow : List Event
slow =
    run_worker 0
    ∷ run_worker 1
    ∷ pass 309000000000
    ∷ run_worker 1
    ∷ receive_done
    ∷ pass 310000000000
    ∷ time_out
    ∷ []

prompt : IsPrompt ev slow (start (web ∷ batch ∷ []) [])
unfolding attempt run step start wait_for_delete is_deleted bytes_eq
prompt = (tt, (tt, (refl, (tt, (tt, (refl, (tt, tt)))))))

-- More than one timeout.
lasted : spent ev slow (start (web ∷ batch ∷ []) []) ≡ 619000000000
unfolding attempt run step start wait_for_delete is_deleted bytes_eq
lasted = refl

spent-bounds_example :
    spent ev slow (start (web ∷ batch ∷ []) []) ≤ length (web ∷ batch ∷ []) * 310000000000
spent-bounds_example = spent-bounds ev (web ∷ batch ∷ []) [] slow 310000000000 refl prompt
