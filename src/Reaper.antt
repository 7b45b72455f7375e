-- ===== src/Reaper.antt =====
-- pkg/nodereaper/nodereaper.go and handler.go: what happens to a node for which an event arrives.
-- A method takes the state before its call and returns that after it; what it logs is left out.
pub mod Effects
pub mod Decision
pub mod Eligible
pub mod Drain
pub mod Safety
pub mod Accounts
pub mod Limits
pub mod Provider
pub mod Defaults
pub mod Complete
use node_reaper.Base.{
  ℕ, ◌+◌, Bool, true, false, not, ◌&&◌, Option, none, some, List, length, [], ◌∷◌, Bytes, codes,
  bytes_eq, before, Result, ok, err, Error, failure, wrapped, wrap_error, context, ◌>>=◌,
  if◌then◌else◌, checking_eligibility, creating_reap_predicate, evaluating_reap_predicate,
  getting_nodes, evaluating_unhealthy_predicate, assessing_health, counting_unhealthy,
  creating_calculator, evaluating_conditions, zone_label_missing, draining, force_retry_draining,
  reaping, getting_provider, extracting_provider, plugin_not_found, reaping_with_provider,
}
use node_reaper.Base.Int.{ℤ, pos, ltb_ℤ}
use node_reaper.Base.Table.{Table, lookup}
use node_reaper.Node.{Node}
use node_reaper.Predicate.{NodeEvaluablePredicate, new_predicate, eval}
use node_reaper.Health.{new_calculator}
use node_reaper.Reaper.Effects.{
  Options, drain_node, reap_node, get_nodes, State, NodeProvider, NodeReaper, called, count_with,
}

abbrev pub zone_label : Bytes
zone_label = codes "failure-domain.beta.kubernetes.io/zone"

-- `node.Labels[zoneLabel] == zone`, where a missing label reads as the empty text.
abbrev pub is_in_zone : Bytes → Node → Bool
is_in_zone zone node = elim (lookup zone_label node.labels) [
  | none ↦ bytes_eq [] zone
  | some z ↦ bytes_eq z zone
]

-- `getProvider`
unfoldable pub get_provider : Node → Result Bytes
get_provider node =
    let provider = before node.provider_id b':' in
    if bytes_eq provider [] then err (failure extracting_provider []) else ok provider

-- Whether an unhealthy node counts: all do for the empty zone.
abbrev pub counts_in : Bytes → Node → Bool
counts_in zone node = if bytes_eq zone [] then true else is_in_zone zone node

module _ {Expr F : Type 0} (nr : NodeReaper Expr F) where
  open nr use {cfg, node_providers, get_nodes_fn, drain_node_fn, m_reg, since, govaluate, float64}

  -- `isNodeReapable`
  unfoldable pub is_node_reapable : Node → Result Bool
  is_node_reapable node = do
    predicate ← context creating_reap_predicate (new_predicate govaluate cfg.reap_predicate)
    context evaluating_reap_predicate (eval govaluate predicate node)

  -- `isNodeCreating`
  unfoldable pub is_node_creating : Node → State → Bool
  is_node_creating node s = ltb_ℤ (since s.calls node.creation_timestamp) cfg.new_node_grace_period

  -- The loop of `countUnhealthyNodes`.
  unfoldable pub count_unhealthy_nodes :
      NodeEvaluablePredicate Expr → Bytes → List Node → ℕ → Result ℕ
  count_unhealthy_nodes nep zone [] total = ok total
  count_unhealthy_nodes nep zone (node ∷ nodes) total = do
    nu ← context evaluating_conditions (eval govaluate nep node)
    count_unhealthy_nodes nep zone nodes (if nu && counts_in zone node then total + 1 else total)

  -- `isClusterHealthy`; the total is that of all nodes, also for one zone
  unfoldable pub is_cluster_healthy :
      List Node → NodeEvaluablePredicate Expr → Bytes → Bytes → Result Bool
  is_cluster_healthy nodes nep max_nodes_unhealthy zone = do
    unhealthy ← context counting_unhealthy (count_unhealthy_nodes nep zone nodes 0)
    chc ← context creating_calculator (new_calculator float64 max_nodes_unhealthy)
    ok (chc unhealthy (length nodes))

  -- The check of the zone in `shouldReap`.
  unfoldable pub is_zone_safe : Node → List Node → NodeEvaluablePredicate Expr → Result Bool
  is_zone_safe node nodes nep = elim (lookup zone_label node.labels) [
    | none ↦ err (failure zone_label_missing zone_label)
    | some zone ↦
        context assessing_health
          (is_cluster_healthy nodes nep cfg.max_nodes_unhealthy_in_same_zone zone)
  ]

  -- The checks of `shouldReap` once the nodes are there.
  unfoldable pub is_safe : Node → List Node → Result Bool
  is_safe node nodes = do
    nep ← context evaluating_unhealthy_predicate (new_predicate govaluate cfg.unhealthy_predicate)
    cluster ← context assessing_health (is_cluster_healthy nodes nep cfg.max_nodes_unhealthy [])
    if cluster then is_zone_safe node nodes nep else ok false

  -- `shouldReap`
  unfoldable pub should_reap : Node → State → Result Bool × State
  should_reap node s = elim (context checking_eligibility (is_node_reapable node)) [
    | err e ↦ (err e, s)
    | ok reapable ↦
        if reapable && not (is_node_creating node s)
        then (
          do nodes ← context getting_nodes (get_nodes_fn s.calls); is_safe node nodes,
          called get_nodes s,
        )
        else (ok false, s)
  ]

  -- `drain`
  abbrev pub options : Options
  options = record {
    timeout = cfg.drain_timeout;
    pod_deletion_grace_period = cfg.pod_deletion_grace_period;
    use_eviction = cfg.use_eviction;
  }

  abbrev pub force_retry_options : Options
  force_retry_options = record {
    timeout = cfg.drain_timeout;
    pod_deletion_grace_period = pos 0;
    use_eviction = false;
  }

  -- A call of `drainNodeFn`.
  abbrev pub call_drain : Node → Options → State → Option Error × State
  call_drain node opts s = (drain_node_fn s.calls node opts, called (drain_node node opts) s)

  unfoldable pub force_retry : Node → State → Option Error × State
  force_retry node s =
      let (again, s') = call_drain node force_retry_options s in
      elim again [
        | none ↦ (none, s')
        | some e ↦ (some (wrapped force_retry_draining e), count_with m_reg.inc_node_drain_fail s')
      ]

  unfoldable pub drain : Node → State → Option Error × State
  unfolding force_retry
  drain node s =
      if cfg.dry_run
      then (none, s)
      else let (first, s') = call_drain node options (count_with m_reg.inc_node_drain_total s) in
        elim first [
          | none ↦ (none, s')
          | some e ↦
              if not cfg.drain_force_retry_on_error
              then (some (wrapped draining e), count_with m_reg.inc_node_drain_fail s')
              else force_retry node s'
        ]

  -- The provider that `reap` calls, by the name in the node.
  unfoldable pub provider_of : Node → Result (Bytes × NodeProvider)
  provider_of node = do
    name ← context getting_provider (get_provider node)
    elim (lookup name node_providers) [
      | none ↦ err (failure plugin_not_found name)
      | some provider ↦ ok (name, provider)
    ]

  -- `reap`
  unfoldable pub reap : Node → State → Option Error × State
  reap node s =
      if cfg.dry_run
      then (none, s)
      else if cfg.skip_reaping
      then (none, s)
      else let s' = count_with m_reg.inc_node_reap_total s in
        elim (provider_of node) [
          | err e ↦ (some e, count_with m_reg.inc_node_reap_fail s')
          | ok (name, provider) ↦
              let s'' = called (reap_node name node) s' in
              elim (provider.reap s'.calls node) [
                | none ↦ (none, s'')
                | some e ↦ (
                  some (wrapped reaping_with_provider e),
                  count_with m_reg.inc_node_reap_fail s'',
                )
              ]
        ]

  -- `Run`
  unfoldable pub run : Node → State → Option Error × State
  run node s =
      let (decision, s1) = should_reap node s in
      elim decision [
        | err e ↦ (some e, s1)
        | ok false ↦ (none, s1)
        | ok true ↦
            let (drained, s2) = drain node s1 in
            elim drained [
              | some e ↦ (some e, s2)
              | none ↦ let (reaped, s3) = reap node s2 in (wrap_error reaping reaped, s3)
            ]
      ]

  -- `Handler.Add`, which logs the error of the run and returns none.
  unfoldable pub add : Node → State → Option Error × State
  add node s = (none, (run node s).1)

  -- `Handler.Delete`
  abbrev pub delete : Bytes → State → Option Error × State
  delete name s = (none, s)
