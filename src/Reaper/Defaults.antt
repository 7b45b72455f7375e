-- ===== src/Reaper/Defaults.antt =====
-- The reaper with the default configuration, switched to act.
use node_reaper.Base.{
  ℕ, zero, suc, ◌≤◌, ◌≡◌, ◌≢◌, refl, ap, subst, Bool, true, false, List, [], ◌∷◌, All, some, ok,
  inl, inr, arith, Bytes, codes, bytes_eq, count_if, ◌==◌, Bool-cases, get_elem?,
}
use node_reaper.Base.Table.{HasDistinctKeys}
use node_reaper.Config.Defs.{Config, default_config}
use node_reaper.Config.Limit.{absolute, limit_type}
use node_reaper.Config.Limit.Digits.{value}
use node_reaper.Config.Parse.Outcome.{config_of}
use node_reaper.Node.{Node}
use node_reaper.Predicate.{new_predicate}
use node_reaper.Predicate.Formula.{Reads, compiled_as}
use node_reaper.Predicate.Defaults.{
  reap_formula, unhealthy_formula, status_is, label_is, role, is_unhealthy, is_reapable,
  eval-is_unhealthy, eval-is_reapable,
}
use node_reaper.Reaper.Effects.{NodeReaper, State}
use node_reaper.Reaper.{is_node_reapable, run}
use node_reaper.Reaper.Decision.{Judges, unhealthy_in}
use node_reaper.Reaper.Safety.{Untouched, run-touches_only-Permitted}
use node_reaper.Reaper.Limits.{run-within_limits}

-- What a file with `dryRun: false` alone is parsed to.
abbrev pub active_config : Config
active_config = record (config_of default_config) { dry_run = false }

-- An element that passes a test makes one in the count.
count_if-one {ℓ} :
    {A : Type ℓ} (p : A → Bool) (xs : List A) (i : ℕ) {x : A}
    → get_elem? xs i ≡ some x
    → p x ≡ true
    → 1 ≤ count_if p xs
count_if-one p [] i at passes = cc
count_if-one p (z ∷ zs) zero at passes = ground arith
count_if-one p (z ∷ zs) (suc i) at passes = ground (arith, count_if-one p zs i at passes)

-- Two elements that pass a test make two in the count.
count_if-two {ℓ} :
    {A : Type ℓ} (p : A → Bool) (xs : List A) (i j : ℕ) {x y : A}
    → get_elem? xs i ≡ some x
    → get_elem? xs j ≡ some y
    → p x ≡ true
    → p y ≡ true
    → i ≢ j
    → 2 ≤ count_if p xs
count_if-two p [] i j hx hy px py ne = cc
count_if-two p (z ∷ zs) zero zero hx hy px py ne = absurd (ne refl)
count_if-two p (z ∷ zs) zero (suc j) hx hy px py ne =
    ground (arith, count_if-one p zs j hy py, hx, px)
count_if-two p (z ∷ zs) (suc i) zero hx hy px py ne =
    ground (arith, count_if-one p zs i hx px, hy, py)
count_if-two p (z ∷ zs) (suc i) (suc j) hx hy px py ne =
    ground (arith, count_if-two p zs i j hx hy px py (λ e. ne (ap suc e)))

-- The only element that passes a test.
count_if-only {ℓ} :
    {A : Type ℓ} (p : A → Bool) (xs : List A) (i j : ℕ) {x y : A}
    → get_elem? xs i ≡ some x
    → get_elem? xs j ≡ some y
    → p x ≡ true
    → p y ≡ true
    → count_if p xs ≤ 1
    → i ≡ j
count_if-only p xs i j hx hy px py one = elim (Bool-cases (i == j)) [
  | inl same ↦ grind arith
  | inr other ↦ absurd (omega (arith, count_if-two p xs i j hx hy px py (λ e. grind arith)))
]

-- What the verdict of the default reap predicate says.
reapable_facts :
    (node : Node)
    → is_reapable node ≡ true
    → (node.unschedulable ≡ false)
      × (label_is role (codes "master") node ≡ false)
      × (status_is (codes "Ready") (codes "True") node ≡ false)
reapable_facts node h = ground arith

-- What is reaped by default is unhealthy by default.
reapable-unhealthy : (node : Node) → is_reapable node ≡ true → is_unhealthy node ≡ true
reapable-unhealthy node h = ground (arith, reapable_facts node h)

limit_of_one : limit_type (codes "1") ≡ ok absolute
unfolding limit_type
limit_of_one = refl

module _ {Expr F : Type 0} (nr : NodeReaper Expr F) where
  judged :
      (nodes : List Node) (reads : Reads nr.govaluate nr.cfg.unhealthy_predicate unhealthy_formula)
      → All (λ node. HasDistinctKeys node.labels) nodes
      → Judges nr (compiled_as reads) is_unhealthy nodes
  judged [] reads h = tt
  judged (node ∷ nodes) reads h = (
    eval-is_unhealthy nr.govaluate nr.cfg.unhealthy_predicate node reads h.0,
    judged nodes reads h.1,
  )

  in_cluster :
      (nodes : List Node) → unhealthy_in nr is_unhealthy [] nodes ≡ count_if is_unhealthy nodes
  unfolding bytes_eq
  in_cluster [] = refl
  in_cluster (node ∷ nodes) = ground (arith, in_cluster nodes)

  reapable :
      (node : Node) (reads : Reads nr.govaluate nr.cfg.reap_predicate reap_formula)
      → HasDistinctKeys node.labels
      → is_node_reapable nr node ≡ ok true
      → is_reapable node ≡ true
  unfolding is_node_reapable new_predicate
  reapable node reads distinct h = ground (
    arith,
    reads.compiled,
    eval-is_reapable nr.govaluate nr.cfg.reap_predicate node reads distinct,
  )

  few :
      (node : Node) (s : State) (nodes : List Node)
      → nr.cfg ≡ active_config
      → (unhealthy : Reads nr.govaluate nr.cfg.unhealthy_predicate unhealthy_formula)
      → All (λ n. HasDistinctKeys n.labels) nodes
      → nr.get_nodes_fn s.calls ≡ ok nodes
      → ¬ Untouched nr node s (run nr node s).1
      → unhealthy_in nr is_unhealthy [] nodes ≤ 1
  unfolding new_predicate
  few node s nodes config unhealthy distinct listed touched =
      let limit : nr.cfg.max_nodes_unhealthy ≡ codes "1" = ap (λ c. c.max_nodes_unhealthy) config in
      let limit' : nr.cfg.max_nodes_unhealthy_in_same_zone ≡ codes "1" =
        ap (λ c. c.max_nodes_unhealthy_in_same_zone) config in
      let (zone, labelled, whole, part) =
        run-within_limits nr node s nodes (compiled_as unhealthy) is_unhealthy listed
          (rw unhealthy.compiled refl) (judged nodes unhealthy distinct) (rw limit limit_of_one)
          (rw limit (omega arith)) (rw limit' limit_of_one) (rw limit' (omega arith)) touched in
      subst (λ (b : Bytes). unhealthy_in nr is_unhealthy [] nodes ≤ value 0 b) limit whole

  -- With the default configuration but for dryRun, where govaluate reads the two default predicates as
  -- documented, and labels have one value each: a run drains, reaps or counts something for a listed
  -- node only if the node is not cordoned, is no master and is not ready, and no other node listed is
  -- unhealthy.
  pub run-only_unhealthy :
      (node : Node) (s : State) (nodes : List Node) (i j : ℕ) (m : Node)
      → nr.cfg ≡ active_config
      → (reap : Reads nr.govaluate nr.cfg.reap_predicate reap_formula)
        (unhealthy : Reads nr.govaluate nr.cfg.unhealthy_predicate unhealthy_formula)
      → HasDistinctKeys node.labels
      → All (λ n. HasDistinctKeys n.labels) nodes
      → nr.get_nodes_fn s.calls ≡ ok nodes
      → ¬ Untouched nr node s (run nr node s).1
      → get_elem? nodes i ≡ some node
      → get_elem? nodes j ≡ some m
      → is_unhealthy m ≡ true
      → (node.unschedulable ≡ false)
        × (label_is role (codes "master") node ≡ false)
        × (status_is (codes "Ready") (codes "True") node ≡ false)
        × (i ≡ j)
  run-only_unhealthy node s nodes i j m config reap unhealthy distinct all_distinct listed touched
        at at' sick =
      elim (run-touches_only-Permitted nr node s) [
        | inr same ↦ absurd (touched same)
        | inl ((nodes', permitted, old, listed', safe), real) ↦
            let fit = reapable node reap distinct permitted in
            let (ready, master, cordoned) = reapable_facts node fit in
            (
              ready,
              master,
              cordoned,
              count_if-only is_unhealthy nodes i j at at' (reapable-unhealthy node fit) sick (
                  subst (λ n. n ≤ 1) (in_cluster nodes)
                    (few node s nodes config unhealthy all_distinct listed touched)),
            )
      ]
