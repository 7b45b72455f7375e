-- ===== src/Drainer.antt =====
-- pkg/drainer/drain.go: cordoning a node, and evicting or deleting its pods.
pub mod Api
pub mod Functions
pub mod Client
pub mod Filter
pub mod Wait
pub mod Eviction
pub mod Discovery
pub mod DrainNode
pub mod Emptied
pub mod Failures
pub mod Served
pub mod Fairness
pub mod Stuck
pub mod Setters
use node_reaper.Base.{
  ℕ, ◌+◌, ◌≡◌, Bool, true, false, not, ◌&&◌, ◌||◌, Option, none, some, List, [], ◌∷◌, ◌++◌, Bytes,
  codes, bytes_eq, Result, ok, err, Error, wrapped, wrap_error, context, ◌>>=◌, if◌then◌else◌,
  cordoning, getting_group_version, getting_pods, failed_draining, attempting, waiting_for_pod,
  operating_pod, drain_timed_out,
}
use node_reaper.Base.Int.{ℤ, pos, negsuc, leb_ℤ}
use node_reaper.Config.Duration.{second}
use node_reaper.Node.{Node}
use node_reaper.Drainer.Api.{Pod, ApiErrors, Poll, Call, cordon, goes_on}

abbrev pub daemon_set : Bytes
daemon_set = codes "DaemonSet"

-- The inner loop of `filterDaemonSets`, over the owners of one pod.
unfoldable pub append_owned : Pod → List Bytes → List Pod → List Pod
append_owned pod [] filtered = filtered
append_owned pod (kind ∷ kinds) filtered =
    append_owned pod kinds
      (if not (bytes_eq kind daemon_set) then filtered ++ pod ∷ [] else filtered)

unfoldable pub filter_from : List Pod → List Pod → List Pod
filter_from [] filtered = filtered
filter_from (pod ∷ pods) filtered = filter_from pods (append_owned pod pod.owner_kinds filtered)

-- `filterDaemonSets`
unfoldable pub filter_daemon_sets : List Pod → List Pod
unfolding filter_from append_owned
filter_daemon_sets pods = filter_from pods []

-- The grace period of `newEvictPodFn` and `newDeletePodFn`: set unless it is negative.
abbrev pub grace : ℤ → Option ℤ
grace g = if leb_ℤ (pos 0) g then some g else none

-- One group of `ServerGroups` and one resource of `ServerResourcesForGroupVersion`.
pub record ApiGroup : Type 0 where
  pub name : Bytes
  pub preferred_version : Bytes

pub record ApiResource : Type 0 where
  pub name : Bytes
  pub kind : Bytes

-- The first loop of `newSupportEvictionFn`.
unfoldable pub policy_group : List ApiGroup → Option Bytes
policy_group [] = none
policy_group (g ∷ gs) =
    if bytes_eq g.name (codes "policy") then some g.preferred_version else policy_group gs

abbrev pub is_eviction : ApiResource → Bool
is_eviction r = bytes_eq r.name (codes "pods/eviction") && bytes_eq r.kind (codes "Eviction")

-- The second loop: the version is returned if the server has the eviction of pods.
unfoldable pub version_for : Bytes → List ApiResource → Bytes
version_for version [] = []
version_for version (r ∷ rs) = if is_eviction r then version else version_for version rs

-- `newSupportEvictionFn`, over the answers of the discovery client.
unfoldable pub support_eviction : Result (List ApiGroup) → Result (List ApiResource) → Result Bytes
support_eviction groups resources = do
  gs ← groups
  elim (policy_group gs) [
    | none ↦ ok []
    | some version ↦ do rs ← resources; ok (version_for version rs)
  ]

-- `newCordonFn`: a node that is cordoned already is not patched.
unfoldable pub cordon_node :
    (List Call → Bytes → Option Error) → Node → List Call → Option Error × List Call
cordon_node patch node calls =
    if node.unschedulable then (none, calls) else (patch calls node.name, cordon node.name ∷ calls)

-- `p != nil && p.ObjectMeta.UID != pod.ObjectMeta.UID`
abbrev pub is_other_pod : Pod → Option Pod → Bool
is_other_pod pod none = false
is_other_pod pod (some q) = not (bytes_eq q.uid pod.uid)

-- What the condition in `waitForDelete` returns for an answer of `getPodFn`.
unfoldable pub is_deleted : ApiErrors → Pod → Option Pod × Option Error → Bool × Option Error
is_deleted api pod (p, e) =
    if api.is_not_found e || is_other_pod pod p
    then (true, none)
    else if api.is_timeout e
    then goes_on
    else elim e [ none ↦ goes_on | some x ↦ (false, some x) ]

-- `math.MaxInt64`
abbrev pub forever : ℤ
forever = pos 9223372036854775807

-- `waitForDelete`, over the answers of `getPodFn` in each round; `none` if it waits for ever.
unfoldable pub wait_for_delete :
    ApiErrors → Poll → Pod → (ℕ → Option Pod × Option Error) → Option (Option Error)
wait_for_delete api poll pod answers =
    elim (poll (pos second) forever (λ n. is_deleted api pod (answers n))) [
      | none ↦ none
      | some e ↦ some (wrap_error operating_pod e)
    ]
