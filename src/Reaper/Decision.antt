-- ===== src/Reaper/Decision.antt =====
-- When `shouldReap` says yes.
use node_reaper.Base.{
  ℕ, ◌+◌, ◌≡◌, ◌↔◌, inl, inr, Bool, true, false, ◌&&◌, some, List, [], ◌∷◌, length, count_if, arith,
  Bytes, ok, Result-cases, Option-cases, if◌then◌else◌, All, ap, ◌∙◌,
}
use native.Mathlib.Nat.{add-zero}
use node_reaper.Base.Table.{lookup}
use node_reaper.Node.{Node}
use node_reaper.Predicate.{NodeEvaluablePredicate, new_predicate, eval}
use node_reaper.Health.{ClusterHealthCalculator, new_calculator}
use node_reaper.Reaper.Effects.{NodeReaper, State}
use node_reaper.Reaper.{
  zone_label, counts_in, is_node_reapable, is_node_creating, count_unhealthy_nodes,
  is_cluster_healthy, is_zone_safe, is_safe, should_reap,
}

module _ {Expr F : Type 0} (nr : NodeReaper Expr F) where
  -- The evaluation of a predicate at a node gives a verdict.
  abbrev pub IsJudged : NodeEvaluablePredicate Expr → Node → Bool → Type 0
  IsJudged nep node b = eval nr.govaluate nep node ≡ ok b

  -- `holds` is what a predicate says of every node of a list.
  abbrev pub Judges : NodeEvaluablePredicate Expr → (Node → Bool) → List Node → Type 0
  Judges nep holds = All (λ node. eval nr.govaluate nep node ≡ ok (holds node))

  count_from :
      (nep : NodeEvaluablePredicate Expr) (zone : Bytes) (holds : Node → Bool) (nodes : List Node)
      (total : ℕ)
      → Judges nep holds nodes
      → count_unhealthy_nodes nr nep zone nodes total
        ≡ ok (total + count_if (λ node. holds node && counts_in zone node) nodes)
  unfolding count_unhealthy_nodes
  count_from nep zone holds [] total h = rw (add-zero)
  count_from nep zone holds (node ∷ nodes) total h = rw h.0 (
      count_from nep zone holds nodes
        (if holds node && counts_in zone node then total + 1 else total) h.1
      ∙ ap ok (ground arith))

  -- A limit, as text, leaves room for so many unhealthy nodes among so many.
  abbrev pub Allows : Bytes → ℕ → ℕ → Type 0
  Allows limit unhealthy total =
      (c : ClusterHealthCalculator) × (new_calculator nr.float64 limit ≡ ok c)
      × (c unhealthy total ≡ true)

  -- The unhealthy nodes that count for a zone, all of them for the empty zone.
  abbrev pub unhealthy_in : (Node → Bool) → Bytes → List Node → ℕ
  unhealthy_in holds zone = count_if (λ node. holds node && counts_in zone node)

  healthy_iff :
      (nep : NodeEvaluablePredicate Expr) (holds : Node → Bool) (nodes : List Node)
      (limit zone : Bytes)
      → Judges nep holds nodes
      → (is_cluster_healthy nr nodes nep limit zone ≡ ok true)
        ↔ Allows limit (unhealthy_in holds zone nodes) (length nodes)
  unfolding is_cluster_healthy
  healthy_iff nep holds nodes limit zone judged = (to, from)
    where
      counted : count_unhealthy_nodes nr nep zone nodes 0 ≡ ok (unhealthy_in holds zone nodes)
      counted = count_from nep zone holds nodes 0 judged ∙ ap ok (omega arith)

      to :
          is_cluster_healthy nr nodes nep limit zone ≡ ok true
          → Allows limit (unhealthy_in holds zone nodes) (length nodes)
      to h = elim (Result-cases (new_calculator nr.float64 limit)) [
        | inl (c, made) ↦ (c, made, ground (arith, counted))
        | inr (e, refused) ↦ ground (arith, counted)
      ]

      from :
          Allows limit (unhealthy_in holds zone nodes) (length nodes)
          → is_cluster_healthy nr nodes nep limit zone ≡ ok true
      from (c, made, yes_) = ground (arith, counted)

  -- With an unhealthy predicate that gives a verdict on every node, the checks pass exactly when the
  -- node has a zone, the limit for the cluster leaves room for all unhealthy nodes, and the limit for a
  -- zone for those of the node's zone, both as parts of all nodes.
  pub is_safe-true_iff :
      (node : Node) (nodes : List Node) (nep : NodeEvaluablePredicate Expr) (holds : Node → Bool)
      → new_predicate nr.govaluate nr.cfg.unhealthy_predicate ≡ ok nep
      → Judges nep holds nodes
      → (is_safe nr node nodes ≡ ok true) ↔ (
          (zone : Bytes) × (lookup zone_label node.labels ≡ some zone)
          × Allows nr.cfg.max_nodes_unhealthy (unhealthy_in holds [] nodes) (length nodes)
          × Allows nr.cfg.max_nodes_unhealthy_in_same_zone
              (unhealthy_in holds zone nodes)
              (length nodes))
  unfolding is_safe is_zone_safe
  is_safe-true_iff node nodes nep holds compiled judged = (to, from)
    where
      to :
          is_safe nr node nodes ≡ ok true
          → (zone : Bytes) × (lookup zone_label node.labels ≡ some zone)
            × Allows nr.cfg.max_nodes_unhealthy (unhealthy_in holds [] nodes) (length nodes)
            × Allows nr.cfg.max_nodes_unhealthy_in_same_zone
                (unhealthy_in holds zone nodes)
                (length nodes)
      to h = elim (Option-cases (lookup zone_label node.labels)) [
        | inl missing ↦ ground arith
        | inr (zone, labelled) ↦ (
          zone,
          labelled,
          (healthy_iff nep holds nodes nr.cfg.max_nodes_unhealthy [] judged).0 (ground arith),
          (healthy_iff nep holds nodes nr.cfg.max_nodes_unhealthy_in_same_zone zone judged).0
              (ground arith),
        )
      ]

      from :
          (zone : Bytes) × (lookup zone_label node.labels ≡ some zone)
            × Allows nr.cfg.max_nodes_unhealthy (unhealthy_in holds [] nodes) (length nodes)
            × Allows nr.cfg.max_nodes_unhealthy_in_same_zone
                (unhealthy_in holds zone nodes)
                (length nodes)
          → is_safe nr node nodes ≡ ok true
      from (zone, labelled, cluster, same_zone) =
          let whole =
            (healthy_iff nep holds nodes nr.cfg.max_nodes_unhealthy [] judged).1 cluster in
          let part =
            (healthy_iff nep holds nodes nr.cfg.max_nodes_unhealthy_in_same_zone zone judged).1
              same_zone in
          ground arith

  -- A yes says that the node meets the predicate, is old enough, and that the nodes could be listed
  -- and leave room for one more disruption.
  abbrev pub Permitted : Node → State → Type 0
  Permitted node s =
      (nodes : List Node) × (is_node_reapable nr node ≡ ok true)
      × (is_node_creating nr node s ≡ false)
      × (nr.get_nodes_fn s.calls ≡ ok nodes)
      × (is_safe nr node nodes ≡ ok true)

  -- `shouldReap` says yes exactly when the node meets the predicate and is old enough, and the nodes
  -- can be listed and leave room for one more disruption.
  pub should_reap-true_iff :
      (node : Node) (s : State) → ((should_reap nr node s).0 ≡ ok true) ↔ Permitted node s
  unfolding should_reap
  should_reap-true_iff node s = (to, from)
    where
      to : (should_reap nr node s).0 ≡ ok true → Permitted node s
      to h = elim (Result-cases (nr.get_nodes_fn s.calls)) [
        | inl (nodes, listed) ↦ (nodes, ground arith, ground arith, listed, ground arith)
        | inr (e, refused) ↦ ground arith
      ]

      from : Permitted node s → (should_reap nr node s).0 ≡ ok true
      from (nodes, reapable, old, listed, safe) = ground arith
