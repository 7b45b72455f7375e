-- ===== src/Examples/Reaping.antt =====
-- Runs of the reaper on a small cluster.
use node_reaper.Base.{
  ℕ, ◌≤◌, ◌≡◌, refl, ◌≢◌, ◌⊎◌, true, false, ◌↔◌, Bool, Option, none, some, List, Error, [], ◌∷◌,
  ◌++◌, arith, Bytes, codes, bytes_eq, before, Result, ok, foreign, wrapped, draining,
  if◌then◌else◌,
}
use node_reaper.Base.Int.{pos}
use node_reaper.Base.Table.{lookup, insert}
use node_reaper.Config.Defs.{Config}
use node_reaper.Config.Limit.{limit_type, absolute}
use node_reaper.Config.Limit.Digits.{value}
use node_reaper.Node.{Node}
use node_reaper.Health.{new_calculator, absolute_health}
use node_reaper.Health.Float.{fractions}
use node_reaper.Predicate.{
  Value, null, boolean, Parameters, Govaluate, NodeEvaluablePredicate, new_predicate, eval,
  parameters_of, blank_missing, load_labels, load_conditions, cordoned_key, condition_key,
  label_key,
}
use node_reaper.Plugins.Registry.{IsRegistry}
use node_reaper.Plugins.Aws.{aws_node_provider, only_aws}
use node_reaper.Reaper.Effects.{
  prom_metrics, Call, State, NodeReaper, get_nodes, drain_node, reap_node, called,
}
use node_reaper.Reaper.{
  zone_label, get_provider, is_node_reapable, is_node_creating, count_unhealthy_nodes,
  is_cluster_healthy, is_zone_safe, is_safe, should_reap, drain, provider_of, reap, run, options,
  force_retry_options,
}
use node_reaper.Reaper.Decision.{Judges, Allows, unhealthy_in, Permitted, is_safe-true_iff}
use node_reaper.Reaper.Safety.{Untouched, reaps, run-touches_only-Permitted}
use node_reaper.Reaper.Complete.{CanReap, run-reaps_iff}
use node_reaper.Reaper.Accounts.{IsCounted, add_all, add_all-IsCounted}
use node_reaper.Reaper.Eligible.{
  MeetsPredicate, IsOldEnough, IsWithinLimits, should_reap-eligible_iff,
}
use node_reaper.Reaper.Limits.{run-within_limits}

-- Expressions as functions: `reap` is true of every node, and any other text asks for the cordon.
abbrev pub Expr : Type 0
Expr = Parameters → Result Value

abbrev or_nil : Option Value → Value
or_nil none = null
or_nil (some v) = v

abbrev evaluator : Govaluate Expr
evaluator = record {
  new_expression = λ s. ok (λ ps.
      if bytes_eq s (codes "reap")
      then ok (boolean true)
      else ok (or_nil (lookup cordoned_key ps)));
  vars = λ e. cordoned_key ∷ [];
  evaluate = λ e ps. e ps;
}

abbrev node_in : Bytes → Bool → Node
node_in zone cordoned = record {
  name = codes "node-" ++ zone;
  creation_timestamp = 0;
  unschedulable = cordoned;
  provider_id = codes "aws:///" ++ zone;
  external_id = codes "i-1";
  labels = (zone_label, zone) ∷ [];
  conditions = [];
}

abbrev pub healthy : Node
healthy = node_in (codes "a") false

abbrev pub cordoned : Node
cordoned = node_in (codes "b") true

abbrev config : Config
config = record {
  reap_predicate = codes "reap";
  unhealthy_predicate = codes "Cordoned";
  max_nodes_unhealthy = codes "1";
  max_nodes_unhealthy_in_same_zone = codes "1";
  new_node_grace_period = pos 300;
  drain_timeout = pos 310;
  drain_force_retry_on_error = true;
  pod_deletion_grace_period = pos 300;
  use_eviction = true;
  skip_reaping = false;
  dry_run = false;
}

-- Every instance is terminated.
abbrev terminate : List Call → Bytes → Option Error
terminate calls id = none

-- Draining fails with evictions, and goes through by deletions.
abbrev pub reaper : NodeReaper Expr (ℕ × ℕ)
reaper = record {
  cfg = config;
  node_providers = only_aws terminate;
  get_nodes_fn = λ calls. ok (healthy ∷ cordoned ∷ []);
  drain_node_fn =
      λ calls node opts. if opts.use_eviction then some (foreign (codes "budget")) else none;
  m_reg = prom_metrics;
  since = λ calls t. pos 400;
  govaluate = evaluator;
  float64 = fractions;
}

-- The same without a retry.
abbrev strict : NodeReaper Expr (ℕ × ℕ)
strict = record reaper { cfg = record config { drain_force_retry_on_error = false } }

abbrev pub fresh : State
fresh = record {
  metrics = record { drain_total = 0; drain_fail = 0; reap_total = 0; reap_fail = 0 };
  calls = [];
}

-- Everything that a run computes with.
abbrev pub final : State
final = record {
  metrics = record { drain_total = 1; drain_fail = 0; reap_total = 1; reap_fail = 0 };
  calls =
      reap_node (codes "aws") healthy
      ∷ drain_node healthy (force_retry_options reaper)
      ∷ drain_node healthy (options reaper)
      ∷ get_nodes
      ∷ [];
}

pub run_reaps : run reaper healthy fresh ≡ (none, final)
unfolding aws_node_provider run should_reap is_node_reapable is_node_creating is_safe is_zone_safe
    is_cluster_healthy count_unhealthy_nodes new_calculator limit_type absolute_health new_predicate
    eval parameters_of blank_missing load_labels load_conditions drain reap provider_of get_provider
    before lookup insert bytes_eq cordoned_key condition_key label_key
run_reaps = refl

decided :
    ((should_reap reaper healthy fresh).0 ≡ ok true)
    × ((should_reap strict healthy fresh).0 ≡ ok true)
unfolding should_reap is_node_reapable is_node_creating is_safe is_zone_safe is_cluster_healthy
    count_unhealthy_nodes new_calculator limit_type absolute_health new_predicate eval parameters_of
    blank_missing load_labels load_conditions lookup insert bytes_eq cordoned_key condition_key
    label_key
decided = (refl, refl)

reaps_changed : reaps (run reaper healthy fresh).1.calls ≢ reaps fresh.calls
reaps_changed = rw run_reaps (omega arith)

run-touches_only-Permitted_example :
    (Permitted reaper healthy fresh × (reaper.cfg.dry_run ≡ false))
    ⊎ Untouched reaper healthy fresh (run reaper healthy fresh).1
run-touches_only-Permitted_example = run-touches_only-Permitted reaper healthy fresh

strict_fails :
    (drain strict healthy (called get_nodes fresh)).0
    ≡ some (wrapped draining (foreign (codes "budget")))
unfolding drain
strict_fails = refl

add_all-IsCounted_example :
    IsCounted reaper (add_all reaper (healthy ∷ cordoned ∷ healthy ∷ []) fresh)
add_all-IsCounted_example = add_all-IsCounted reaper (healthy ∷ cordoned ∷ healthy ∷ []) fresh refl

-- What the unhealthy predicate of the example says.
abbrev is_cordoned : Node → Bool
is_cordoned node = node.unschedulable

abbrev predicate : NodeEvaluablePredicate Expr
predicate = record {
  expression = codes "Cordoned";
  evaluable_expression = λ ps.
      if bytes_eq (codes "Cordoned") (codes "reap")
      then ok (boolean true)
      else ok (or_nil (lookup cordoned_key ps));
}

predicate-Judges :
    (new_predicate evaluator (codes "Cordoned") ≡ ok predicate)
    × Judges reaper predicate is_cordoned (healthy ∷ cordoned ∷ [])
unfolding new_predicate eval parameters_of blank_missing load_labels load_conditions lookup insert
    bytes_eq cordoned_key condition_key label_key
predicate-Judges = (refl, (refl, (refl, tt)))

is_safe-true_iff_example : (is_safe reaper healthy (healthy ∷ cordoned ∷ []) ≡ ok true) ↔ (
    (zone : Bytes) × (lookup zone_label healthy.labels ≡ some zone)
    × Allows reaper (codes "1") (unhealthy_in reaper is_cordoned [] (healthy ∷ cordoned ∷ [])) 2
    × Allows reaper (codes "1") (unhealthy_in reaper is_cordoned zone (healthy ∷ cordoned ∷ [])) 2)
is_safe-true_iff_example =
    is_safe-true_iff reaper healthy (healthy ∷ cordoned ∷ []) predicate is_cordoned
      predicate-Judges.0 predicate-Judges.1

should_reap-eligible_iff_example : ((should_reap reaper healthy fresh).0 ≡ ok true) ↔ (
    MeetsPredicate reaper healthy
    × IsOldEnough reaper healthy fresh
    × IsWithinLimits reaper healthy is_cordoned (healthy ∷ cordoned ∷ []))
should_reap-eligible_iff_example =
    should_reap-eligible_iff reaper healthy fresh (healthy ∷ cordoned ∷ []) predicate is_cordoned
      refl predicate-Judges.0 predicate-Judges.1

one_is_absolute : limit_type (codes "1") ≡ ok absolute
unfolding limit_type
one_is_absolute = refl

touched : ¬ Untouched reaper healthy fresh (run reaper healthy fresh).1
touched h = reaps_changed h.1

run-within_limits_example :
    (zone : Bytes) × (lookup zone_label healthy.labels ≡ some zone)
    × (unhealthy_in reaper is_cordoned [] (healthy ∷ cordoned ∷ []) ≤ value 0 (codes "1"))
    × (unhealthy_in reaper is_cordoned zone (healthy ∷ cordoned ∷ []) ≤ value 0 (codes "1"))
run-within_limits_example =
    run-within_limits reaper healthy fresh (healthy ∷ cordoned ∷ []) predicate is_cordoned refl
      predicate-Judges.0 predicate-Judges.1 one_is_absolute (omega arith) one_is_absolute
      (omega arith) touched

aws-IsRegistry : IsRegistry reaper.node_providers
unfolding lookup aws_node_provider
aws-IsRegistry = record { keyed = (refl, tt); distinct = (refl, tt) }

run-reaps_iff_example : (reaps (run reaper healthy fresh).1.calls ≢ reaps fresh.calls) ↔ (
    Permitted reaper healthy fresh
    × ((drain reaper healthy (called get_nodes fresh)).0 ≡ none)
    × CanReap reaper healthy)
run-reaps_iff_example = run-reaps_iff reaper healthy fresh
