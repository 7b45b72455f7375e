-- ===== src/Examples/Failing.antt =====
-- A drain of pkg/drainer/drain.go that the server refuses.
use node_reaper.Base.{
  ok, none, arith, ◌++◌, failure, drain_timed_out, ◌≡◌, refl, Error, foreign, wrapped, attempting,
  failed_draining, some, List, [], ◌∷◌, bytes_eq, codes,
}
use node_reaper.Drainer.{
  policy_group, version_for, support_eviction, cordon_node, filter_daemon_sets, wait_for_delete,
  is_deleted,
}
use node_reaper.Drainer.Eviction.{
  Event, run_worker, receive_error, pass, time_out, attempt, run, start, step,
}
use node_reaper.Drainer.Client.{Client, new_node_drainer}
use node_reaper.Drainer.DrainNode.{drain_pods, drain_node, evictor, discovered_by}
use node_reaper.Drainer.Api.{Poll}
use node_reaper.Drainer.Functions.{NodeDrainer}
use node_reaper.Drainer.Stuck.{NeverGoes, drain_node-times_out}
use node_reaper.Examples.Polling.{round_ends}
use node_reaper.Drainer.Served.{ServedReason, served-ServedReason}
use node_reaper.Examples.Draining.{client, options, node_a, web, logger, batch}

-- No attempt is allowed.
abbrev forbidding : Client
forbidding = record client { attempt_fn = λ calls call. some (foreign (codes "forbidden")) }

abbrev stops : List Event
stops = run_worker 1 ∷ run_worker 1 ∷ receive_error ∷ []

abbrev refused_ : Error
refused_ = wrapped failed_draining (wrapped attempting (foreign (codes "forbidden")))

refuses :
    (drain_node (new_node_drainer forbidding options node_a) stops []).0 ≡ some (some refused_)
unfolding drain_node drain_pods cordon_node support_eviction policy_group version_for
    filter_daemon_sets attempt run step start bytes_eq
refuses = refl

served-ServedReason_example :
    (x : Error) × ServedReason forbidding options node_a stops [] refused_ x
served-ServedReason_example =
    served-ServedReason forbidding options node_a stops [] refused_ refuses

-- A poll that looks at three rounds, and goes on for ever if none of them ends it.
abbrev patient : Poll
patient interval timeout rounds = elim (round_ends (rounds 0)) [
  | some r ↦ some r
  | none ↦ elim (round_ends (rounds 1)) [ some r ↦ some r | none ↦ round_ends (rounds 2) ]
]

-- Evictions are accepted, and the pods stay.
abbrev stuck : Client
stuck = record client {
  poll = patient;
  attempt_fn = λ calls call. none;
  get_pod = λ calls namespace name n. (some web, none);
}

abbrev stuck_drainer : NodeDrainer
stuck_drainer = new_node_drainer stuck options node_a

web-NeverGoes : NeverGoes (evictor stuck_drainer (codes "policy/v1beta1")) web
unfolding attempt wait_for_delete is_deleted bytes_eq
web-NeverGoes = record {
  there = λ calls x answered. absurd (ground arith);
  waits = λ calls over. absurd (ground arith);
}

found_version : (discovered_by stuck_drainer []).0 ≡ ok (codes "policy/v1beta1")
unfolding support_eviction policy_group version_for bytes_eq
found_version = refl

drain_node-times_out_example :
    (drain_node stuck_drainer
      ((run_worker 0 ∷ run_worker 0 ∷ []) ++ pass 310000000000 ∷ time_out ∷ [])
      []).0
    ≡ some (some (wrapped failed_draining (failure drain_timed_out [])))
drain_node-times_out_example =
    drain_node-times_out stuck_drainer (run_worker 0 ∷ run_worker 0 ∷ []) []
      (codes "policy/v1beta1") (web ∷ logger ∷ batch ∷ []) 310000000000 0 web refl
      (unfold cordon_node in refl) found_version refl
      (unfold filter_daemon_sets in unfold bytes_eq in refl) web-NeverGoes
      ((λ h. cc), ((λ h. cc), tt))
