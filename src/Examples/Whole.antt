-- ===== src/Examples/Whole.antt =====
-- A run of the reaper over the drainer: the pods of the node are gone when they are to be evicted.
use node_reaper.Base.{
  Bytes, codes, inl, refl, [], ◌≡◌, ◌≢◌, ◌⊎◌, true, none, some, ◌∷◌, arith, List, bytes_eq, before,
  ℕ,
}
use node_reaper.Base.Table.{lookup, insert}
use node_reaper.Config.Limit.{limit_type}
use node_reaper.Health.{new_calculator, absolute_health}
use node_reaper.Predicate.{
  new_predicate, eval, parameters_of, blank_missing, load_labels, load_conditions, cordoned_key,
  condition_key, label_key,
}
use node_reaper.Node.{Node}
use node_reaper.Plugins.Aws.{aws_node_provider}
use node_reaper.Drainer.Eviction.Fair.Rounds.{concat}
use node_reaper.Reaper.Effects.{NodeReaper, Options}
use node_reaper.Reaper.Effects
use node_reaper.Reaper.{
  is_node_reapable, is_node_creating, count_unhealthy_nodes, is_cluster_healthy, is_zone_safe,
  is_safe, should_reap, drain, get_provider, provider_of, reap, run, options, force_retry_options,
}
use node_reaper.Reaper.Safety.{reaps}
use node_reaper.Program.{World, new_drain_node_fn, Drains, EmptiedBy, run-reaps_only-EmptiedBy}
use node_reaper.Drainer.Eviction.Fair.{IsFinite}
use node_reaper.Drainer.DrainNode.{evictor}
use node_reaper.Reaper.Decision.{Permitted}
use node_reaper.Reaper.Complete.{CanReap}
use node_reaper.Controller.{set_drain_node_fn}
use node_reaper.Program.Fair.{drain_by, IsFairWorld, IsWillingDrain, run-reaps-willing}
use node_reaper.Examples.Draining.{
  waits_end, not_found, willing, willing_drainer, web, logger, batch,
}
use node_reaper.Examples.Fairness.{
  again, drains_always, all_evicted, cordoned_, found_, fair, untimed, listed-IsFair,
}
use node_reaper.Examples.Reaping.{Expr, reaper, healthy, cordoned, fresh}

abbrev calm : NodeReaper Expr (ℕ × ℕ)
calm = record reaper { drain_node_fn = λ calls node opts. none }

abbrev world : World
world = record { client = λ calls. willing; schedule = λ calls node opts. concat (again 13) }

drain_returns :
    (calls : List Effects.Call) (node : Node) (opts : Options)
    → new_drain_node_fn world calls node opts ≡ some none
unfolding new_drain_node_fn
drain_returns calls node opts = drains_always opts node

calm-Drains : Drains calm world
calm-Drains = record { returns = drain_returns }

calm-reaps : reaps (run calm healthy fresh).1.calls ≢ reaps fresh.calls
unfolding aws_node_provider run should_reap is_node_reapable is_node_creating is_safe is_zone_safe
    is_cluster_healthy count_unhealthy_nodes new_calculator limit_type absolute_health new_predicate
    eval parameters_of blank_missing load_labels load_conditions drain reap provider_of get_provider
    before lookup insert bytes_eq cordoned_key condition_key label_key
calm-reaps h = absurd (omega arith)

run-reaps_only-EmptiedBy_example :
    EmptiedBy world (Effects.get_nodes ∷ fresh.calls) healthy (options calm)
    ⊎ ((calm.cfg.drain_force_retry_on_error ≡ true)
        × EmptiedBy world
            (Effects.drain_node healthy (options calm) ∷ Effects.get_nodes ∷ fresh.calls)
            healthy
            (force_retry_options calm))
run-reaps_only-EmptiedBy_example =
    run-reaps_only-EmptiedBy calm world healthy fresh calm-Drains calm-reaps

fair_world : IsFairWorld world
fair_world = record {
  rounds = λ calls node opts. again 13;
  scheduled = λ calls node opts. refl;
  calm = λ calls node opts version. calm_ opts node version;
  fair = λ calls node opts pods listed. listed-IsFair pods listed;
}
  where
    calm_ :
        (opts : Options) (node : Node) (version : Bytes)
        → IsFinite (evictor (willing_drainer opts node) version)
    calm_ opts node version = (
      (λ calls pod x refused. inl ((all_evicted opts node version).accepted calls pod x refused)),
      λ calls pod. waits_end pod (λ n. (none, some not_found)),
    )

willing_drain :
    (opts : Options) (node : Node) → IsWillingDrain (willing_drainer opts node) (concat (again 13))
willing_drain opts node = record {
  version = codes "policy/v1beta1";
  pods = web ∷ logger ∷ batch ∷ [];
  rounds = again 13;
  scheduled = refl;
  cordoned = cordoned_ opts node;
  found = found_ opts node;
  listed = refl;
  willing = all_evicted opts node (codes "policy/v1beta1");
  fair = fair;
  untimed = untimed 13;
}

healthy-Permitted : Permitted (set_drain_node_fn (drain_by world) reaper) healthy fresh
unfolding is_node_reapable is_node_creating is_safe is_zone_safe is_cluster_healthy
    count_unhealthy_nodes new_calculator limit_type absolute_health new_predicate eval parameters_of
    blank_missing load_labels load_conditions lookup insert bytes_eq cordoned_key condition_key
    label_key
healthy-Permitted = (healthy ∷ cordoned ∷ [], refl, refl, refl, refl)

healthy-CanReap : CanReap reaper healthy
unfolding get_provider before lookup bytes_eq aws_node_provider
healthy-CanReap = (refl, refl, codes "aws", aws_node_provider (λ calls id. none), refl, refl)

run-reaps-willing_example :
    (reaps (run (set_drain_node_fn (drain_by world) reaper) healthy fresh).1.calls
      ≢ reaps fresh.calls)
    × EmptiedBy world (Effects.get_nodes ∷ fresh.calls) healthy (options reaper)
run-reaps-willing_example =
    run-reaps-willing reaper world healthy fresh fair_world (willing_drain (options reaper) healthy)
      healthy-Permitted healthy-CanReap
