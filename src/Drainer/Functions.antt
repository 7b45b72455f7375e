-- ===== src/Drainer/Functions.antt =====
-- `NodeDrainer` of pkg/drainer/drain.go: the functions that it works with, and those that set them.
use node_reaper.Base.{ℕ, Option, List, Bytes, Result, Error}
use node_reaper.Base.Int.{ℤ}
use node_reaper.Node.{Node}
use node_reaper.Reaper.Effects.{Options}
use node_reaper.Drainer.Api.{Pod, ApiErrors, Poll, Call}

-- A function takes the calls so far and returns those after it. `getPodFn` is asked again in each round of
-- a wait, and what it answers is a function of the number of the round.
abbrev pub CordonFn : Type 0
CordonFn = Node → List Call → Option Error × List Call

abbrev pub SupportEvictionFn : Type 0
SupportEvictionFn = List Call → Result Bytes × List Call

abbrev pub GetPodFn : Type 0
GetPodFn = List Call → Bytes → Bytes → ℕ → Option Pod × Option Error

abbrev pub GetPodsFn : Type 0
GetPodsFn = Bytes → List Call → Result (List Pod) × List Call

abbrev pub EvictPodFn : Type 0
EvictPodFn = Pod → Bytes → ℤ → List Call → Option Error × List Call

abbrev pub DeletePodFn : Type 0
DeletePodFn = Pod → ℤ → List Call → Option Error × List Call

-- `NodeDrainer`, with the packages that its methods call.
pub record NodeDrainer : Type 0 where
  pub node : Node
  pub opts : Options
  pub api : ApiErrors
  pub poll : Poll
  pub cordon_fn : CordonFn
  pub support_eviction_fn : SupportEvictionFn
  pub get_pod_fn : GetPodFn
  pub get_pods_fn : GetPodsFn
  pub evict_pod_fn : EvictPodFn
  pub delete_pod_fn : DeletePodFn

-- The setters return the drainer that they change.
abbrev pub set_cordon_fn : CordonFn → NodeDrainer → NodeDrainer
set_cordon_fn fn nd = record nd { cordon_fn = fn }

abbrev pub set_support_eviction_fn : SupportEvictionFn → NodeDrainer → NodeDrainer
set_support_eviction_fn fn nd = record nd { support_eviction_fn = fn }

abbrev pub set_get_pod_fn : GetPodFn → NodeDrainer → NodeDrainer
set_get_pod_fn fn nd = record nd { get_pod_fn = fn }

abbrev pub set_get_pods_fn : GetPodsFn → NodeDrainer → NodeDrainer
set_get_pods_fn fn nd = record nd { get_pods_fn = fn }

abbrev pub set_evict_pod_fn : EvictPodFn → NodeDrainer → NodeDrainer
set_evict_pod_fn fn nd = record nd { evict_pod_fn = fn }

abbrev pub set_delete_pod_fn : DeletePodFn → NodeDrainer → NodeDrainer
set_delete_pod_fn fn nd = record nd { delete_pod_fn = fn }
