-- ===== src/Drainer/DrainNode.antt =====
-- `DrainNode` of pkg/drainer/drain.go, over a schedule of its goroutines.
use node_reaper.Base.{
  ◌≡◌, refl, inl, inr, ℕ, Option, none, some, List, arith, Bytes, Result, ok, err, Error, wrapped,
  wrap_error, cordoning, getting_group_version, getting_pods, failed_draining, Result-cases,
  Option-cases, get_elem?,
}
use node_reaper.Drainer.Api.{Pod, Call}
use node_reaper.Drainer.{filter_daemon_sets}
use node_reaper.Drainer.Functions.{NodeDrainer}
use node_reaper.Drainer.Eviction.{Evictor, Event, System, run, start}
use node_reaper.Drainer.Eviction.History.{Confirmed}
use node_reaper.Drainer.Eviction.Outcome.{success-Confirmed}

-- The receiver and the options of the call of `evictOrDeletePods`.
abbrev pub evictor : NodeDrainer → Bytes → Evictor
evictor nd version = record {
  nd = nd;
  options = record {
    policy_group_version = version;
    grace_period = nd.opts.pod_deletion_grace_period;
    use_eviction = nd.opts.use_eviction;
  };
}

-- The end of `DrainNode`: `none` as long as the eviction has not returned.
abbrev pub drained : Option (Option Error) → Option (Option Error)
drained none = none
drained (some e) = some (wrap_error failed_draining e)

unfoldable pub drain_pods :
    NodeDrainer → List Event → Bytes → List Pod → List Call → Option (Option Error) × List Call
drain_pods nd es version pods calls =
    let s = run (evictor nd version) es (start (filter_daemon_sets pods) calls) in
    (drained s.returned, s.calls)

unfoldable pub drain_node : NodeDrainer → List Event → List Call → Option (Option Error) × List Call
drain_node nd es calls =
    let (cordoned, calls1) = nd.cordon_fn nd.node calls in
    elim cordoned [
      | some e ↦ (some (some (wrapped cordoning e)), calls1)
      | none ↦
          let (supported, calls2) = nd.support_eviction_fn calls1 in
          elim supported [
            | err e ↦ (some (some (wrapped getting_group_version e)), calls2)
            | ok version ↦
                let (listed, calls3) = nd.get_pods_fn nd.node.name calls2 in
                elim listed [
                  | err e ↦ (some (some (wrapped getting_pods e)), calls3)
                  | ok pods ↦ drain_pods nd es version pods calls3
                ]
          ]
    ]

-- What the functions of a drain return, one after the other, and the state in which its goroutines start.
abbrev pub cordoned_by : NodeDrainer → List Call → Option Error × List Call
cordoned_by nd calls = nd.cordon_fn nd.node calls

abbrev pub discovered_by : NodeDrainer → List Call → Result Bytes × List Call
discovered_by nd calls = nd.support_eviction_fn (cordoned_by nd calls).1

abbrev pub listed_by : NodeDrainer → List Call → Result (List Pod) × List Call
listed_by nd calls = nd.get_pods_fn nd.node.name (discovered_by nd calls).1

abbrev pub started_with : NodeDrainer → List Call → List Pod → System
started_with nd calls pods = start (filter_daemon_sets pods) (listed_by nd calls).1

drained-none : (r : Option (Option Error)) → drained r ≡ some none → r ≡ some none
drained-none none h = cc
drained-none (some none) h = refl
drained-none (some (some e)) h = absurd (ground arith)

-- When draining succeeds, the cordon and discovery have succeeded, and the goroutine of every pod that was
-- listed and passes the filter has learnt that the pod is gone.
pub drain_node-success :
    (nd : NodeDrainer) (es : List Event) (calls : List Call) (pods : List Pod) (i : ℕ) (pod : Pod)
    → (drain_node nd es calls).0 ≡ some none
    → (listed_by nd calls).0 ≡ ok pods
    → get_elem? (filter_daemon_sets pods) i ≡ some pod
    → ((cordoned_by nd calls).0 ≡ none)
      × (version : Bytes) × ((discovered_by nd calls).0 ≡ ok version)
      × Confirmed (evictor nd version) i pod es (started_with nd calls pods)
unfolding drain_node drain_pods
drain_node-success nd es calls pods i pod h listed at =
    elim (Option-cases (cordoned_by nd calls).0) [
      | inr (e, failed) ↦ absurd (ground arith)
      | inl cordoned ↦ elim (Result-cases (discovered_by nd calls).0) [
        | inr (e, failed) ↦ absurd (ground arith)
        | inl (version, found) ↦
            let s = run (evictor nd version) es (started_with nd calls pods) in
            let success : s.returned ≡ some none = drained-none s.returned (ground arith) in
            (
              cordoned,
              version,
              found,
              success-Confirmed (evictor nd version) (filter_daemon_sets pods)
                  (listed_by nd calls).1 es i pod success at,
            )
      ]
    ]
