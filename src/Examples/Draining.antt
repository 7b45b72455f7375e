-- ===== src/Examples/Draining.antt =====
-- pkg/drainer/drain.go on a node with two pods, and a polling function that waits as documented.
use node_reaper.Base.{
  ◌≢◌, ℕ, zero, suc, ◌<◌, ◌≡◌, refl, inl, true, false, Bool, Option, none, some, List, [], ◌∷◌,
  arith, Bytes, codes, bytes_eq, ok, Error, foreign, if◌then◌else◌,
}
use node_reaper.Base.Int.{pos}
use node_reaper.Drainer.Api.{Pod, ApiErrors, Call, evict}
use node_reaper.Drainer.{
  ApiGroup, ApiResource, policy_group, version_for, support_eviction, is_deleted, wait_for_delete,
  filter_daemon_sets,
}
use node_reaper.Drainer.Filter.{by_owner, filter_daemon_sets-by_owner}
use node_reaper.Drainer.Wait.{
  KeepsWaiting, Decides, IsGet, wait_for_delete_lem, wait_for_delete-any_error,
}
use node_reaper.Drainer.Eviction.{Evictor, attempt}
use node_reaper.Node.{Node}
use node_reaper.Reaper.Effects.{Options}
use node_reaper.Drainer.Functions.{NodeDrainer}
use node_reaper.Drainer.Client.{Client, new_node_drainer}
use node_reaper.Drainer.DrainNode.{evictor}
use node_reaper.Examples.Polling.{poll_each, poll_each-IsPoll}

abbrev pub not_found : Error
not_found = foreign (codes "not found")

-- Only one error is known, that a pod is not found.
abbrev found_missing : Option Error → Bool
found_missing none = false
found_missing (some (foreign s)) = bytes_eq s (codes "not found")
found_missing (some _) = false

abbrev pub api : ApiErrors
api = record {
  is_not_found = found_missing;
  is_timeout = λ e. false;
  is_too_many_requests = λ e. false;
}

abbrev pub web : Pod
web = record {
  name = codes "web";
  namespace = codes "shop";
  uid = codes "1";
  owner_kinds = codes "ReplicaSet" ∷ [];
}

abbrev pub logger : Pod
logger = record {
  name = codes "logger";
  namespace = codes "kube";
  uid = codes "2";
  owner_kinds = codes "DaemonSet" ∷ [];
}

abbrev bare : Pod
bare = record { name = codes "bare"; namespace = codes "shop"; uid = codes "3"; owner_kinds = [] }

abbrev shared : Pod
shared = record {
  name = codes "shared";
  namespace = codes "shop";
  uid = codes "4";
  owner_kinds = codes "Job" ∷ codes "Foo" ∷ [];
}

kept :
    (filter_daemon_sets (web ∷ logger ∷ bare ∷ shared ∷ []) ≡ web ∷ shared ∷ shared ∷ [])
    × (filter_daemon_sets (web ∷ logger ∷ []) ≡ web ∷ [])
unfolding filter_daemon_sets bytes_eq
kept = (refl, refl)

filter_daemon_sets-by_owner_example :
    filter_daemon_sets (web ∷ logger ∷ bare ∷ shared ∷ [])
    ≡ by_owner (web ∷ logger ∷ bare ∷ shared ∷ [])
filter_daemon_sets-by_owner_example =
    filter_daemon_sets-by_owner (web ∷ logger ∷ bare ∷ shared ∷ [])

-- The pod is there in the first round, and gone in the second.
abbrev pub answers : ℕ → Option Pod × Option Error
answers zero = (some web, none)
answers (suc n) = (none, some not_found)

first_round : (m : ℕ) → m < 1 → KeepsWaiting api web (answers m)
first_round zero below = (refl, λ (q, found, differs). differs (cc), inl refl)
first_round (suc m) below = absurd (omega arith)

missing_next : Decides api web (answers 1) none
unfolding bytes_eq
missing_next = inl (inl refl, refl)

wait_for_delete_lem_example : wait_for_delete api poll_each web answers ≡ some none
wait_for_delete_lem_example =
    wait_for_delete_lem api poll_each poll_each-IsPoll web answers 1 none (omega arith) first_round
      missing_next

-- The pod is there, and then the connection is refused, which client-go returns beside an empty pod.
abbrev refused : Error
refused = foreign (codes "connection refused")

abbrev broken : ℕ → Option Pod × Option Error
broken zero = (some web, none)
broken (suc n) =
    (some (record { name = []; namespace = []; uid = []; owner_kinds = [] }), some refused)

broken-IsGet : IsGet broken
broken-IsGet zero x h = cc
broken-IsGet (suc n) x h =
    (record { name = []; namespace = []; uid = []; owner_kinds = [] }, refl, refl)

first_there : (m : ℕ) → m < 1 → KeepsWaiting api web (broken m)
first_there zero below = (refl, λ (q, found, differs). differs (cc), inl refl)
first_there (suc m) below = absurd (omega arith)

wait_for_delete-any_error_example : wait_for_delete api poll_each web broken ≡ some none
wait_for_delete-any_error_example =
    wait_for_delete-any_error api poll_each poll_each-IsPoll web broken 1 refused broken-IsGet
      (λ h. cc) (omega arith) first_there refl

abbrev pub groups : List ApiGroup
groups =
    record { name = codes "apps"; preferred_version = codes "apps/v1" }
    ∷ record { name = codes "policy"; preferred_version = codes "policy/v1beta1" }
    ∷ []

abbrev pub resources : List ApiResource
resources = record { name = codes "pods/eviction"; kind = codes "Eviction" } ∷ []

evictions_found : support_eviction (ok groups) (ok resources) ≡ ok (codes "policy/v1beta1")
unfolding support_eviction policy_group version_for bytes_eq
evictions_found = refl

-- The pod `web` is evicted and waited for; the second pod is gone already.
abbrev pub batch : Pod
batch = record {
  name = codes "batch";
  namespace = codes "shop";
  uid = codes "5";
  owner_kinds = codes "Job" ∷ [];
}

abbrev pub attempts : List Call → Call → Option Error
attempts calls (evict namespace name version g) =
    if bytes_eq name (codes "batch") then some not_found else none
attempts calls _ = none

abbrev pub client : Client
client = record {
  api = api;
  poll = poll_each;
  patch_fn = λ calls node. none;
  groups_fn = λ calls. ok groups;
  resources_fn = λ calls. ok resources;
  list_pods_fn = λ calls selector. ok (web ∷ logger ∷ batch ∷ []);
  attempt_fn = attempts;
  get_pod = λ calls namespace name. answers;
}

abbrev pub options : Options
options = record {
  timeout = pos 310000000000;
  pod_deletion_grace_period = pos 300000000000;
  use_eviction = true;
}

abbrev pub node_a : Node
node_a = record {
  name = codes "node-a";
  creation_timestamp = 0;
  unschedulable = false;
  provider_id = [];
  external_id = [];
  labels = [];
  conditions = [];
}

abbrev pub drainer : NodeDrainer
drainer = new_node_drainer client options node_a

abbrev pub ev : Evictor
ev = evictor drainer (codes "policy/v1beta1")

-- Evictions that are accepted, of pods that are gone at once.
abbrev pub willing : Client
willing = record client {
  attempt_fn = λ calls call. none;
  get_pod = λ calls namespace name n. (none, some not_found);
}

abbrev pub willing_drainer : Options → Node → NodeDrainer
willing_drainer = new_node_drainer willing

pub accepted_at_once :
    (opts : Options) (node : Node) (version : Bytes) (calls : List Call) (pod : Pod)
    → (attempt (evictor (willing_drainer opts node) version) pod calls).0 ≡ none
unfolding attempt
accepted_at_once opts node version calls pod = ground arith

pub gone_at_once :
    (calls : List Call) (pod : Pod)
    → wait_for_delete api poll_each pod (λ n. (none, some not_found)) ≡ some none
unfolding wait_for_delete is_deleted bytes_eq
gone_at_once calls pod = refl

pub waits_end :
    (pod : Pod) (rounds : ℕ → Option Pod × Option Error)
    → wait_for_delete api poll_each pod rounds ≢ none
unfolding wait_for_delete
waits_end pod rounds h = cc
