-- ===== src/Examples/Evicting.antt =====
-- Drains of pkg/drainer/drain.go under schedules of the two goroutines.
use node_reaper.Base.{
  ◌≡◌, get_elem?, refl, none, some, List, [], ◌∷◌, Bytes, bytes_eq, ok, failure, drain_timed_out,
}
use node_reaper.Drainer.{
  policy_group, version_for, support_eviction, cordon_node, is_deleted, wait_for_delete,
  filter_daemon_sets,
}
use node_reaper.Drainer.Eviction.{
  sending_done, attempt, Event, run_worker, receive_error, receive_done, time_out, pass, step, run,
  start,
}
use node_reaper.Drainer.Eviction.History.{Confirmed}
use node_reaper.Drainer.Eviction.Outcome.{success-Confirmed}
use node_reaper.Drainer.Api.{discover}
use node_reaper.Drainer.Client.{IsCordoned}
use node_reaper.Drainer.DrainNode.{drain_pods, drain_node, evictor, cordoned_by, started_with}
use node_reaper.Drainer.Served.{served-success}
use node_reaper.Examples.Draining.{client, options, node_a, drainer, ev, web, logger, batch}

abbrev schedule : List Event
schedule =
    run_worker 0
    ∷ run_worker 1
    ∷ run_worker 1
    ∷ receive_done
    ∷ pass 100
    ∷ run_worker 0
    ∷ run_worker 0
    ∷ receive_error
    ∷ receive_done
    ∷ []

evicted : (run ev schedule (start (web ∷ batch ∷ []) [])).returned ≡ some none
unfolding attempt run step start wait_for_delete is_deleted bytes_eq
evicted = refl

success-Confirmed_example : Confirmed ev 0 web schedule (start (web ∷ batch ∷ []) [])
success-Confirmed_example = success-Confirmed ev (web ∷ batch ∷ []) [] schedule 0 web evicted refl

-- Time that passes after the last goroutine that was received counts alone: two waits that are each
-- shorter than the timeout do not end the eviction.
timeouts :
    ((run ev (pass 310000000000 ∷ time_out ∷ []) (start (web ∷ batch ∷ []) [])).returned
      ≡ some (some (failure drain_timed_out [])))
    × ((run ev
          (run_worker 1
            ∷ run_worker 1
            ∷ pass 300000000000
            ∷ receive_done
            ∷ pass 300000000000
            ∷ time_out
            ∷ [])
          (start (web ∷ batch ∷ []) [])).returned
        ≡ none)
unfolding attempt run step start bytes_eq
timeouts = (refl, refl)

drains : (drain_node drainer schedule []).0 ≡ some none
unfolding drain_node drain_pods cordon_node support_eviction policy_group version_for
    filter_daemon_sets attempt run step start wait_for_delete is_deleted bytes_eq
drains = refl

served-success_example :
    IsCordoned client node_a []
    × (version : Bytes) × (support_eviction
          (client.groups_fn (cordoned_by drainer []).1)
          (client.resources_fn (discover ∷ (cordoned_by drainer []).1))
        ≡ ok version)
    × Confirmed
        (evictor drainer version)
        1
        batch
        schedule
        (started_with drainer [] (web ∷ logger ∷ batch ∷ []))
served-success_example =
    served-success client options node_a schedule [] (web ∷ logger ∷ batch ∷ []) 1 batch drains refl
      (unfold filter_daemon_sets in unfold bytes_eq in refl)

-- The second pod is found missing: its goroutine is about to send.
abbrev about_to_send : List Event
about_to_send = run_worker 1 ∷ []

at_send :
    get_elem? (run ev about_to_send (start (web ∷ batch ∷ []) [])).workers 1
    ≡ some (record { pod = batch; phase = sending_done })
unfolding attempt run step start bytes_eq
at_send = refl
