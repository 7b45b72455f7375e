-- ===== src/Examples/Defaulting.antt =====
-- The default predicates, with an evaluation of formulas in the place of govaluate.
use node_reaper.Base.{
  ℕ, ◌≡◌, refl, true, false, [], ◌∷◌, arith, Bytes, codes, bytes_eq, ok, err, foreign, none,
  if◌then◌else◌, before, All,
}
use node_reaper.Base.Int.{pos}
use node_reaper.Base.Table.{lookup, insert, HasDistinctKeys}
use node_reaper.Health.{new_calculator, absolute_health}
use node_reaper.Health.Float.{fractions}
use node_reaper.Config.Limit.{limit_type}
use node_reaper.Config.Duration.{seconds}
use node_reaper.Node.{Node}
use node_reaper.Plugins.Aws.{aws_node_provider, only_aws}
use node_reaper.Predicate.{
  Govaluate, boolean, eval, new_predicate, parameters_of, blank_missing, load_labels,
  load_conditions, cordoned_key, condition_key, label_key,
}
use node_reaper.Predicate.Formula.{Formula, meaning, variables_of, Reads, compiled_as}
use node_reaper.Predicate.Defaults.{
  reap_formula, unhealthy_formula, status_is, label_is, role, is_unhealthy, is_reapable,
  eval-is_unhealthy,
}
use node_reaper.Reaper.Effects.{prom_metrics, NodeReaper}
use node_reaper.Reaper.{
  zone_label, run, should_reap, is_node_reapable, is_node_creating, is_safe, is_zone_safe,
  is_cluster_healthy, count_unhealthy_nodes, drain, reap, provider_of, get_provider,
}
use node_reaper.Reaper.Safety.{reaps}
use node_reaper.Reaper.Defaults.{active_config, run-only_unhealthy}
use node_reaper.Examples.Reaping.{fresh}

abbrev pub formulas : Govaluate Formula
formulas = record {
  new_expression = λ source.
      if bytes_eq source active_config.reap_predicate
      then ok reap_formula
      else if bytes_eq source active_config.unhealthy_predicate
      then ok unhealthy_formula
      else err (foreign source);
  vars = variables_of;
  evaluate = λ f ps. ok (boolean (meaning f ps));
}

reads_reap : Reads formulas active_config.reap_predicate reap_formula
unfolding bytes_eq lookup
reads_reap = record {
  expr = reap_formula;
  compiled = refl;
  named = refl;
  evaluated = λ ps given. refl;
}

pub reads_unhealthy : Reads formulas active_config.unhealthy_predicate unhealthy_formula
unfolding bytes_eq lookup
reads_unhealthy = record {
  expr = unhealthy_formula;
  compiled = refl;
  named = refl;
  evaluated = λ ps given. refl;
}

abbrev pub node_with : Bytes → Bytes → Node
node_with name ready = record {
  name = name;
  creation_timestamp = 0;
  unschedulable = false;
  provider_id = codes "aws:///a/i-1";
  external_id = codes "i-1";
  labels = (zone_label, codes "a") ∷ (role, codes "node") ∷ [];
  conditions =
      record { type = codes "OutOfDisk"; status = codes "False" }
      ∷ record { type = codes "MemoryPressure"; status = codes "False" }
      ∷ record { type = codes "DiskPressure"; status = codes "False" }
      ∷ record { type = codes "Ready"; status = ready }
      ∷ [];
}

abbrev pub fine : Node
fine = node_with (codes "fine") (codes "True")

abbrev pub lost : Node
lost = node_with (codes "lost") (codes "Unknown")

abbrev pub by_default : NodeReaper Formula (ℕ × ℕ)
by_default = record {
  cfg = active_config;
  node_providers = only_aws (λ calls id. none);
  get_nodes_fn = λ calls. ok (fine ∷ lost ∷ []);
  drain_node_fn = λ calls node opts. none;
  m_reg = prom_metrics;
  since = λ calls t. pos 400000000000;
  govaluate = formulas;
  float64 = fractions;
}

verdicts :
    (is_unhealthy fine ≡ false)
    × (is_unhealthy lost ≡ true)
    × (is_reapable fine ≡ false)
    × (is_reapable lost ≡ true)
unfolding bytes_eq lookup
verdicts = (refl, refl, refl, refl)

pub distinct : HasDistinctKeys lost.labels
unfolding bytes_eq lookup
distinct = (refl, (refl, tt))

labels_distinct : All (λ n. HasDistinctKeys n.labels) (fine ∷ lost ∷ [])
unfolding bytes_eq lookup
labels_distinct = ((refl, (refl, tt)), ((refl, (refl, tt)), tt))

eval-is_unhealthy_example :
    eval formulas (compiled_as reads_unhealthy) lost ≡ ok (is_unhealthy lost)
eval-is_unhealthy_example =
    eval-is_unhealthy formulas active_config.unhealthy_predicate lost reads_unhealthy distinct

reaped : reaps (run by_default lost fresh).1.calls ≡ 1
unfolding aws_node_provider run should_reap is_node_reapable is_node_creating is_safe is_zone_safe
    is_cluster_healthy count_unhealthy_nodes new_calculator limit_type absolute_health new_predicate
    eval parameters_of blank_missing load_labels load_conditions drain reap provider_of get_provider
    before lookup insert bytes_eq cordoned_key condition_key label_key seconds
reaped = refl

abbrev at_lost : ℕ
at_lost = 1

run-only_unhealthy_example :
    (lost.unschedulable ≡ false)
    × (label_is role (codes "master") lost ≡ false)
    × (status_is (codes "Ready") (codes "True") lost ≡ false)
    × (at_lost ≡ at_lost)
run-only_unhealthy_example =
    run-only_unhealthy by_default lost fresh (fine ∷ lost ∷ []) at_lost at_lost lost refl reads_reap
      reads_unhealthy distinct labels_distinct refl (λ same. omega (arith, same.1, reaped)) refl
      refl verdicts.1
