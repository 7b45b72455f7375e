-- ===== src/Drainer/Client.antt =====
-- The functions of pkg/drainer/drain.go that ask the API server, and `NewNodeDrainer`.
use node_reaper.Base.{
  ℕ, ◌≡◌, ◌⊎◌, true, false, Option, none, some, List, ◌∷◌, ◌++◌, arith, Bytes, codes, Result, ok,
  err, Error,
}
use node_reaper.Node.{Node}
use node_reaper.Reaper.Effects.{Options}
use node_reaper.Drainer.Api.{
  Pod, ApiErrors, Poll, Call, discover, discover_resources, list_pods, evict, delete,
}
use node_reaper.Drainer.{ApiGroup, ApiResource, cordon_node, policy_group, support_eviction, grace}
use node_reaper.Drainer.Functions.{
  CordonFn, SupportEvictionFn, GetPodFn, GetPodsFn, EvictPodFn, DeletePodFn, NodeDrainer,
}

-- The client of the API server, by its answers during one drain; pods are listed by a field selector, and
-- one is asked for by its namespace and its name, again in each round of a wait.
pub record Client : Type 0 where
  pub api : ApiErrors
  pub poll : Poll
  pub patch_fn : List Call → Bytes → Option Error
  pub groups_fn : List Call → Result (List ApiGroup)
  pub resources_fn : List Call → Result (List ApiResource)
  pub list_pods_fn : List Call → Bytes → Result (List Pod)
  pub attempt_fn : List Call → Call → Option Error
  pub get_pod : List Call → Bytes → Bytes → ℕ → Option Pod × Option Error

-- `newCordonFn`
abbrev pub new_cordon_fn : Client → CordonFn
new_cordon_fn client = cordon_node client.patch_fn

-- The calls of `newSupportEvictionFn`: the resources are asked for only if a group `policy` was found.
abbrev pub discovery_calls : Result (List ApiGroup) → List Call → List Call
discovery_calls (err e) calls = discover ∷ calls
discovery_calls (ok groups) calls = elim (policy_group groups) [
  | none ↦ discover ∷ calls
  | some version ↦ discover_resources (codes "v1") ∷ discover ∷ calls
]

-- `newSupportEvictionFn`
abbrev pub new_support_eviction_fn : Client → SupportEvictionFn
new_support_eviction_fn client calls =
    let groups = client.groups_fn calls in
    (support_eviction groups (client.resources_fn (discover ∷ calls)), discovery_calls groups calls)

-- `newGetPodFn`, for the pod that is waited for
abbrev pub new_get_pod_fn : Client → GetPodFn
new_get_pod_fn client = client.get_pod

-- `newGetPodsFn`: the pods of all namespaces on a node
abbrev pub new_get_pods_fn : Client → GetPodsFn
new_get_pods_fn client node_name calls =
    (client.list_pods_fn calls (codes "spec.nodeName=" ++ node_name), list_pods node_name ∷ calls)

abbrev send : Client → Call → List Call → Option Error × List Call
send client call calls = (client.attempt_fn calls call, call ∷ calls)

-- `newEvictPodFn`
abbrev pub new_evict_pod_fn : Client → EvictPodFn
new_evict_pod_fn client pod policy_group_version grace_period =
    send client (evict pod.namespace pod.name policy_group_version (grace grace_period))

-- `newDeletePodFn`
abbrev pub new_delete_pod_fn : Client → DeletePodFn
new_delete_pod_fn client pod grace_period =
    send client (delete pod.namespace pod.name pod.uid (grace grace_period))

-- `NewNodeDrainer`
abbrev pub new_node_drainer : Client → Options → Node → NodeDrainer
new_node_drainer client opts node = record {
  node = node;
  opts = opts;
  api = client.api;
  poll = client.poll;
  cordon_fn = new_cordon_fn client;
  support_eviction_fn = new_support_eviction_fn client;
  get_pod_fn = new_get_pod_fn client;
  get_pods_fn = new_get_pods_fn client;
  evict_pod_fn = new_evict_pod_fn client;
  delete_pod_fn = new_delete_pod_fn client;
}

-- A cordon without an error: the node was cordoned already, or the patch has succeeded.
abbrev pub IsCordoned : Client → Node → List Call → Type 0
IsCordoned client node calls =
    (node.unschedulable ≡ true) ⊎ (client.patch_fn calls node.name ≡ none)

pub new_cordon_fn-IsCordoned :
    (client : Client) (node : Node) (calls : List Call)
    → (new_cordon_fn client node calls).0 ≡ none
    → IsCordoned client node calls
unfolding cordon_node
new_cordon_fn-IsCordoned client node calls h = ground arith

pub new_cordon_fn-some :
    (client : Client) (node : Node) (calls : List Call) (x : Error)
    → (new_cordon_fn client node calls).0 ≡ some x
    → (node.unschedulable ≡ false) × (client.patch_fn calls node.name ≡ some x)
unfolding cordon_node
new_cordon_fn-some client node calls x h = ground arith
