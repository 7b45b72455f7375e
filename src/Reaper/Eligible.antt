-- ===== src/Reaper/Eligible.antt =====
-- `shouldReap` of pkg/nodereaper/nodereaper.go as a whole, against what the configuration says.
use node_reaper.Base.{
  ◌≡◌, ◌↔◌, inl, inr, Bool, true, false, some, List, [], length, arith, Bytes, ok, Result-cases,
}
use node_reaper.Base.Int.{◌≤ℤ◌}
use node_reaper.Base.Table.{lookup}
use node_reaper.Node.{Node}
use node_reaper.Predicate.{NodeEvaluablePredicate, new_predicate, eval}
use node_reaper.Reaper.Effects.{NodeReaper, State}
use node_reaper.Reaper.{zone_label, is_node_reapable, is_node_creating, should_reap}
use node_reaper.Reaper.Decision.{
  IsJudged, Judges, Allows, unhealthy_in, should_reap-true_iff, is_safe-true_iff,
}

module _ {Expr F : Type 0} (nr : NodeReaper Expr F) (node : Node) where
  -- The reap predicate compiles and is true of the node.
  abbrev pub MeetsPredicate : Type 0
  MeetsPredicate =
      (reap : NodeEvaluablePredicate Expr) × (new_predicate nr.govaluate nr.cfg.reap_predicate
        ≡ ok reap)
      × IsJudged nr reap node true

  reapable_iff : (is_node_reapable nr node ≡ ok true) ↔ MeetsPredicate
  unfolding is_node_reapable
  reapable_iff = (to, from)
    where
      to : is_node_reapable nr node ≡ ok true → MeetsPredicate
      to h = elim (Result-cases (new_predicate nr.govaluate nr.cfg.reap_predicate)) [
        | inr (e, refused) ↦ absurd (ground arith)
        | inl (reap, compiled) ↦ elim (Result-cases (eval nr.govaluate reap node)) [
          | inr (e, failed) ↦ absurd (ground arith)
          | inl (b, judged) ↦ (reap, compiled, ground arith)
        ]
      ]

      from : MeetsPredicate → is_node_reapable nr node ≡ ok true
      from (reap, compiled, judged) = ground arith

  -- The age of the node is the grace period of new nodes at least.
  abbrev pub IsOldEnough : State → Type 0
  IsOldEnough s = nr.cfg.new_node_grace_period ≤ℤ nr.since s.calls node.creation_timestamp

  creating_iff : (s : State) → (is_node_creating nr node s ≡ false) ↔ IsOldEnough s
  unfolding is_node_creating
  creating_iff s = ground arith

  -- The node has a zone, and the limits for the cluster and for a zone allow the nodes that are unhealthy.
  abbrev pub IsWithinLimits : (Node → Bool) → List Node → Type 0
  IsWithinLimits holds nodes =
      (zone : Bytes) × (lookup zone_label node.labels ≡ some zone)
      × Allows nr nr.cfg.max_nodes_unhealthy (unhealthy_in nr holds [] nodes) (length nodes)
      × Allows nr nr.cfg.max_nodes_unhealthy_in_same_zone (unhealthy_in nr holds zone nodes)
          (length nodes)

  -- With a list of nodes and an unhealthy predicate that gives a verdict on each of them, `shouldReap` says yes
  -- exactly when the reap predicate is true of the node, the node's age is the grace period at least, it has a
  -- zone, and the limit for the cluster allows the number of unhealthy nodes, as the limit for a zone does that
  -- of the unhealthy nodes in the node's zone.
  pub should_reap-eligible_iff :
      (s : State) (nodes : List Node) (nep : NodeEvaluablePredicate Expr) (holds : Node → Bool)
      → nr.get_nodes_fn s.calls ≡ ok nodes
      → new_predicate nr.govaluate nr.cfg.unhealthy_predicate ≡ ok nep
      → Judges nr nep holds nodes
      → ((should_reap nr node s).0 ≡ ok true)
        ↔ (MeetsPredicate × IsOldEnough s × IsWithinLimits holds nodes)
  should_reap-eligible_iff s nodes nep holds listed compiled judged = (to, from)
    where
      to :
          (should_reap nr node s).0 ≡ ok true
          → MeetsPredicate × IsOldEnough s × IsWithinLimits holds nodes
      to h =
          let (nodes', reapable, old, listed', passed) = (should_reap-true_iff nr node s).0 h in
          let same : nodes' ≡ nodes = cc in
          (
            reapable_iff.0 reapable,
            (creating_iff s).0 old,
            (is_safe-true_iff nr node nodes nep holds compiled judged).0 (cc),
          )

      from :
          MeetsPredicate × IsOldEnough s × IsWithinLimits holds nodes
          → (should_reap nr node s).0 ≡ ok true
      from (meets, old, within) = (should_reap-true_iff nr node s).1 (
        nodes,
        reapable_iff.1 meets,
        (creating_iff s).1 old,
        listed,
        (is_safe-true_iff nr node nodes nep holds compiled judged).1 within,
      )
