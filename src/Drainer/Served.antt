-- ===== src/Drainer/Served.antt =====
-- `DrainNode` of pkg/drainer/drain.go with the functions of `NewNodeDrainer`, which ask the API server.
use node_reaper.Base.{
  ℕ, ◌≡◌, ◌⊎◌, inl, inr, false, none, some, List, ◌∷◌, ◌++◌, arith, Bytes, codes, Result, ok, err,
  Error, wrapped, cordoning, getting_group_version, getting_pods, failed_draining, Option-cases,
  get_elem?, ap,
}
use node_reaper.Node.{Node}
use node_reaper.Reaper.Effects.{Options}
use node_reaper.Drainer.Api.{Pod, Call, cordon, discover}
use node_reaper.Drainer.{
  ApiGroup, ApiResource, cordon_node, policy_group, support_eviction, filter_daemon_sets,
}
use node_reaper.Drainer.Functions.{NodeDrainer}
use node_reaper.Drainer.Client.{
  Client, new_node_drainer, IsCordoned, new_cordon_fn-IsCordoned, new_cordon_fn-some,
}
use node_reaper.Drainer.Eviction.{Event}
use node_reaper.Drainer.Eviction.History.{Confirmed}
use node_reaper.Drainer.DrainNode.{
  evictor, drain_node, cordoned_by, discovered_by, started_with, drain_node-success,
}
use node_reaper.Drainer.Failures.{EvictionFails, drain_node-Reason}

support_eviction-err :
    (groups : Result (List ApiGroup)) (resources : Result (List ApiResource)) (x : Error)
    → support_eviction groups resources ≡ err x
    → (groups ≡ err x) ⊎ (resources ≡ err x)
unfolding support_eviction
support_eviction-err (err e) resources x h = let same : e ≡ x = cc in inl (ap err same)
support_eviction-err (ok gs) (err e) x h = elim (Option-cases (policy_group gs)) [
  | inl missing ↦ absurd (ground arith)
  | inr (version, found) ↦ inr (ground arith)
]
support_eviction-err (ok gs) (ok rs) x h = absurd (ground arith)

module _ (client : Client) (opts : Options) (node : Node) where
  abbrev pub served : NodeDrainer
  served = new_node_drainer client opts node

  -- A node that could not be cordoned is left alone: the error is returned after the one call.
  pub served-uncordoned :
      (es : List Event) (calls : List Call) (e : Error)
      → node.unschedulable ≡ false
      → client.patch_fn calls node.name ≡ some e
      → drain_node served es calls ≡ (some (some (wrapped cordoning e)), cordon node.name ∷ calls)
  unfolding drain_node cordon_node
  served-uncordoned es calls e schedulable failed = ground arith

  -- When draining succeeds, the node was cordoned already or has been, discovery has answered, and the
  -- goroutine of every pod that was listed and passes the filter has learnt that the pod is gone.
  pub served-success :
      (es : List Event) (calls : List Call) (pods : List Pod) (i : ℕ) (pod : Pod)
      → (drain_node served es calls).0 ≡ some none
      → client.list_pods_fn (discovered_by served calls).1 (codes "spec.nodeName=" ++ node.name)
        ≡ ok pods
      → get_elem? (filter_daemon_sets pods) i ≡ some pod
      → IsCordoned client node calls
        × (version : Bytes) × (support_eviction
              (client.groups_fn (cordoned_by served calls).1)
              (client.resources_fn (discover ∷ (cordoned_by served calls).1))
            ≡ ok version)
        × Confirmed (evictor served version) i pod es (started_with served calls pods)
  served-success es calls pods i pod h listed at =
      let (cordoned, version, found, gone) =
        drain_node-success served es calls pods i pod h listed at in
      (new_cordon_fn-IsCordoned client node calls cordoned, version, found, gone)

  -- Why a drain fails with an error that is wrapped: the patch, one of the two requests of discovery, the list
  -- of the pods, or the eviction.
  abbrev pub ServedReason : List Event → List Call → Error → Error → Type 0
  ServedReason es calls e x =
      ((e ≡ wrapped cordoning x)
        × (node.unschedulable ≡ false)
        × (client.patch_fn calls node.name ≡ some x))
      ⊎ ((e ≡ wrapped getting_group_version x)
          × ((client.groups_fn (cordoned_by served calls).1 ≡ err x)
              ⊎ (client.resources_fn (discover ∷ (cordoned_by served calls).1) ≡ err x)))
      ⊎ ((e ≡ wrapped getting_pods x)
          × (client.list_pods_fn (discovered_by served calls).1
                (codes "spec.nodeName=" ++ node.name)
              ≡ err x))
      ⊎ ((e ≡ wrapped failed_draining x) × EvictionFails served es calls x)

  -- An error of `DrainNode` has a reason: the node was not cordoned and the patch failed, a request of
  -- discovery failed, the pods could not be listed, or the eviction timed out or failed with the answer that
  -- a goroutine got; and the error is wrapped at the place of that reason.
  pub served-ServedReason :
      (es : List Event) (calls : List Call) (e : Error)
      → (drain_node served es calls).0 ≡ some (some e)
      → (x : Error) × ServedReason es calls e x
  served-ServedReason es calls e h =
      let (x, reason) = drain_node-Reason served es calls e h in
      (
        x,
        elim reason [
          | inl (placed, refused) ↦
              let (schedulable, answer) = new_cordon_fn-some client node calls x refused in
              inl (placed, schedulable, answer)
          | inr (inl (placed, refused)) ↦ inr (inl (placed, support_eviction-err _ _ x refused))
          | inr (inr (inl (placed, refused))) ↦ inr (inr (inl (placed, refused)))
          | inr (inr (inr (placed, fails))) ↦ inr (inr (inr (placed, fails)))
        ],
      )
