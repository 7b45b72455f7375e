-- ===== src/Drainer/Failures.antt =====
-- The errors that `DrainNode` of pkg/drainer/drain.go returns.
use node_reaper.Base.{
  ◌≡◌, refl, ◌⊎◌, inl, inr, Option, none, some, List, [], arith, Bytes, ok, err, Error, failure,
  wrapped, cordoning, getting_group_version, getting_pods, failed_draining, drain_timed_out,
  Result-cases, Option-cases,
}
use node_reaper.Drainer.Api.{Pod, Call}
use node_reaper.Drainer.{filter_daemon_sets}
use node_reaper.Drainer.Functions.{NodeDrainer}
use node_reaper.Drainer.Eviction.{Event, run}
use node_reaper.Drainer.Eviction.Failure.{Failed}
use node_reaper.Drainer.Eviction.Failure.Returned.{failure-Failed}
use node_reaper.Drainer.DrainNode.{
  evictor, drained, drain_node, drain_pods, cordoned_by, discovered_by, listed_by, started_with,
}

-- The eviction fails with an error: it has timed out, or a goroutine has got an answer that it fails with.
abbrev pub EvictionFails : NodeDrainer → List Event → List Call → Error → Type 0
EvictionFails nd es calls x =
    (version : Bytes) × (pods : List Pod) × ((discovered_by nd calls).0 ≡ ok version)
    × ((listed_by nd calls).0 ≡ ok pods)
    × ((x ≡ failure drain_timed_out [])
        ⊎ Failed (evictor nd version) x es (started_with nd calls pods))

-- Why a drain fails with an error that is wrapped: the cordon, discovery, the list of the pods, or the
-- eviction.
abbrev pub Reason : NodeDrainer → List Event → List Call → Error → Error → Type 0
Reason nd es calls e x =
    ((e ≡ wrapped cordoning x) × ((cordoned_by nd calls).0 ≡ some x))
    ⊎ ((e ≡ wrapped getting_group_version x) × ((discovered_by nd calls).0 ≡ err x))
    ⊎ ((e ≡ wrapped getting_pods x) × ((listed_by nd calls).0 ≡ err x))
    ⊎ ((e ≡ wrapped failed_draining x) × EvictionFails nd es calls x)

drained-some :
    (r : Option (Option Error)) (e : Error)
    → drained r ≡ some (some e)
    → (x : Error) × (e ≡ wrapped failed_draining x) × (r ≡ some (some x))
drained-some none e h = cc
drained-some (some none) e h = absurd (ground arith)
drained-some (some (some x)) e h = (x, ground arith, refl)

-- An error of `DrainNode` has a reason: the cordon, discovery or the list of the pods has failed, or the
-- eviction timed out or failed with the answer that a goroutine got; and the error is wrapped at the place
-- of that reason.
pub drain_node-Reason :
    (nd : NodeDrainer) (es : List Event) (calls : List Call) (e : Error)
    → (drain_node nd es calls).0 ≡ some (some e)
    → (x : Error) × Reason nd es calls e x
unfolding drain_node drain_pods
drain_node-Reason nd es calls e h = elim (Option-cases (cordoned_by nd calls).0) [
  | inr (x, refused) ↦ (x, inl (ground arith, refused))
  | inl cordoned ↦ elim (Result-cases (discovered_by nd calls).0) [
    | inr (x, refused) ↦ (x, inr (inl (ground arith, refused)))
    | inl (version, found) ↦ elim (Result-cases (listed_by nd calls).0) [
      | inr (x, refused) ↦ (x, inr (inr (inl (ground arith, refused))))
      | inl (pods, listed) ↦
          let s' = run (evictor nd version) es (started_with nd calls pods) in
          let (x, placed, returned_) = drained-some s'.returned e (ground arith) in
          let failed_ =
            failure-Failed (evictor nd version) (filter_daemon_sets pods) (listed_by nd calls).1 es
              x returned_ in
          (x, inr (inr (inr (placed, (version, pods, found, listed, failed_)))))
    ]
  ]
]
