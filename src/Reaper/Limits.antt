-- ===== src/Reaper/Limits.antt =====
-- The limits of the configuration and the plugins that were loaded, against what a run does.
use node_reaper.Base.{
  ℕ, Bool, ◌≤◌, ◌<◌, ◌≡◌, ◌≢◌, inl, inr, List, [], ◌∷◌, arith, Bytes, ok, some, length,
}
use node_reaper.Base.Int.{two_64}
use node_reaper.Base.Table.{lookup}
use node_reaper.Node.{Node}
use node_reaper.Config.Limit.{absolute, limit_type}
use node_reaper.Config.Limit.Digits.{value}
use node_reaper.Health.Limits.{new_calculator-absolute}
use node_reaper.Predicate.{NodeEvaluablePredicate, new_predicate}
use node_reaper.Plugins.Registry.{IsRegistry, lookup-type}
use node_reaper.Reaper.Effects.{NodeReaper, NodeProvider, State, get_nodes, called, reap_node}
use node_reaper.Reaper.{zone_label, get_provider, drain, run}
use node_reaper.Reaper.Decision.{Judges, Allows, unhealthy_in, is_safe-true_iff}
use node_reaper.Reaper.Safety.{Untouched, reaps, run-touches_only-Permitted, run-reaps_only_drained}

module _ {Expr F : Type 0} (nr : NodeReaper Expr F) where
  Allows-absolute :
      (limit : Bytes) (unhealthy total : ℕ)
      → limit_type limit ≡ ok absolute
      → value 0 limit < two_64
      → Allows nr limit unhealthy total
      → unhealthy ≤ value 0 limit
  Allows-absolute limit unhealthy total kind fits (c, made, yes_) =
      let (c', made', iff) = new_calculator-absolute nr.float64 limit unhealthy total kind fits in
      iff.0 (ground arith)

  -- With limits that are numbers, and an unhealthy predicate that gives a verdict on every node listed,
  -- a run drains, reaps or counts something only if no more nodes are unhealthy than the limit for the
  -- cluster says, and in the node's zone no more than the limit for a zone.
  pub run-within_limits :
      (node : Node) (s : State) (nodes : List Node) (nep : NodeEvaluablePredicate Expr)
      (holds : Node → Bool)
      → nr.get_nodes_fn s.calls ≡ ok nodes
      → new_predicate nr.govaluate nr.cfg.unhealthy_predicate ≡ ok nep
      → Judges nr nep holds nodes
      → limit_type nr.cfg.max_nodes_unhealthy ≡ ok absolute
      → value 0 nr.cfg.max_nodes_unhealthy < two_64
      → limit_type nr.cfg.max_nodes_unhealthy_in_same_zone ≡ ok absolute
      → value 0 nr.cfg.max_nodes_unhealthy_in_same_zone < two_64
      → ¬ Untouched nr node s (run nr node s).1
      → (zone : Bytes) × (lookup zone_label node.labels ≡ some zone)
        × (unhealthy_in nr holds [] nodes ≤ value 0 nr.cfg.max_nodes_unhealthy)
        × (unhealthy_in nr holds zone nodes ≤ value 0 nr.cfg.max_nodes_unhealthy_in_same_zone)
  run-within_limits node s nodes nep holds listed compiled judged kind fits kind' fits' touched =
      elim (run-touches_only-Permitted nr node s) [
        | inr same ↦ absurd (touched same)
        | inl ((nodes', reapable, old, listed', safe), real) ↦
            let same : nodes' ≡ nodes = cc in
            let (zone, labelled, whole, part) =
              (is_safe-true_iff nr node nodes nep holds compiled judged).0 (rw same at safe) in
            (
              zone,
              labelled,
              Allows-absolute nr.cfg.max_nodes_unhealthy (unhealthy_in nr holds [] nodes)
                  (length nodes) kind fits whole,
              Allows-absolute nr.cfg.max_nodes_unhealthy_in_same_zone
                  (unhealthy_in nr holds zone nodes) (length nodes) kind' fits' part,
            )
      ]

  -- With a map that `loadNodeProviderPlugins` may return, the provider that a run calls is of the type
  -- that the node names.
  pub run-reaps_by_type :
      (node : Node) (s : State)
      → IsRegistry nr.node_providers
      → reaps (run nr node s).1.calls ≢ reaps s.calls
      → (p : NodeProvider) × (get_provider node ≡ ok p.type)
        × (lookup p.type nr.node_providers ≡ some p)
        × ((run nr node s).1.calls
            ≡ reap_node p.type node ∷ (drain nr node (called get_nodes s)).1.calls)
  run-reaps_by_type node s registry h =
      let (permitted, drained, (name, p, real, reaping, got, found, calls)) =
        run-reaps_only_drained nr node s h in
      let named : p.type ≡ name = lookup-type nr.node_providers name p registry.keyed found in
      (p, rw named got, rw named found, rw named calls)
