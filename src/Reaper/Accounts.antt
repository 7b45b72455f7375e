-- ===== src/Reaper/Accounts.antt =====
-- The counters of pkg/metrics against the calls that were made, over any sequence of node events.
use node_reaper.Base.{
  ℕ, ◌+◌, ◌≡◌, inl, inr, Bool, true, false, not, ◌&&◌, ◌||◌, Option, none, some, List, [], ◌∷◌,
  arith, Error, Bytes, Option-cases, Result-cases, ok, err,
}
use node_reaper.Base.Table.{lookup}
use node_reaper.Node.{Node}
use node_reaper.Reaper.Effects.{
  NodeReaper, NodeProvider, State, Metrics, Call, drain_node, reap_node, prom_metrics, with_metrics,
  get_nodes, called,
}
use node_reaper.Reaper.{get_provider, should_reap, drain, provider_of, reap, run, add}
use node_reaper.Reaper.Safety.{should_reap-effects, run-cases}

abbrev none_counted : Metrics
none_counted = record { drain_total = 0; drain_fail = 0; reap_total = 0; reap_fail = 0 }

abbrev one_if : Bool → ℕ
one_if true = 1
one_if false = 0

abbrev is_error : Option Error → Bool
is_error none = false
is_error (some e) = true

abbrev plus : Metrics → Metrics → Metrics
plus m n = record {
  drain_total = n.drain_total + m.drain_total;
  drain_fail = n.drain_fail + m.drain_fail;
  reap_total = n.reap_total + m.reap_total;
  reap_fail = n.reap_fail + m.reap_fail;
}

-- A drain that follows the list of the nodes is the first of its turn, and one that follows a drain is forced.
abbrev is_first : List Call → Bool
is_first (get_nodes ∷ calls) = true
is_first _ = false

module _ {Expr F : Type 0} (nr : NodeReaper Expr F) where
  abbrev unprovided : Node → Bool
  unprovided node = elim (provider_of nr node) [ err e ↦ true | ok p ↦ false ]

  -- The last error of a turn: that of the forced drain, or that of the first one if none is to follow.
  abbrev is_last : List Call → Bool
  is_last calls = not (is_first calls) || not nr.cfg.drain_force_retry_on_error

  -- What one call stands for, by what it was answered after the calls before it. A drain is counted at its
  -- first call, and as failed at its last; after one without an error a reap is counted, unless reaping is
  -- skipped, and as failed if the node has no provider or the provider answers an error.
  abbrev entry : Call → List Call → Metrics
  entry get_nodes calls = none_counted
  entry (drain_node node opts) calls =
      let failed = is_error (nr.drain_node_fn calls node opts) in
      let reaped = not failed && not nr.cfg.skip_reaping in
      record {
        drain_total = one_if (is_first calls);
        drain_fail = one_if (failed && is_last calls);
        reap_total = one_if reaped;
        reap_fail = one_if (reaped && unprovided node);
      }
  entry (reap_node name node) calls = record {
    drain_total = 0;
    drain_fail = 0;
    reap_total = 0;
    reap_fail = elim (lookup name nr.node_providers) [
      | none ↦ 0
      | some provider ↦ one_if (is_error (provider.reap calls node))
    ];
  }

  -- The counters as the calls and their answers determine them.
  abbrev pub tally : List Call → Metrics
  tally [] = none_counted
  tally (get_nodes ∷ calls) = tally calls
  tally (c ∷ calls) = plus (entry c calls) (tally calls)

  abbrev pub IsCounted : State → Type 0
  IsCounted s = s.metrics ≡ tally s.calls

module _ {Expr F : Type 0} (base : NodeReaper Expr F) (node : Node) where
  abbrev metered : NodeReaper Expr F
  metered = with_metrics prom_metrics base

  should_reap-IsCounted :
      (s : State) → IsCounted metered s → IsCounted metered (should_reap metered node s).1
  should_reap-IsCounted s h = elim (should_reap-effects metered node s) [
    | inl e ↦ rw e h
    | inr e ↦ rw e h
  ]

  failed-IsCounted :
      (s : State) (e : Error)
      → IsCounted metered s
      → (drain metered node (called get_nodes s)).0 ≡ some e
      → IsCounted metered (drain metered node (called get_nodes s)).1
  unfolding drain
  failed-IsCounted s e h failed = ground arith

  provider_of-lookup :
      (name : Bytes) (provider : NodeProvider)
      → provider_of metered node ≡ ok (name, provider)
      → lookup name base.node_providers ≡ some provider
  unfolding provider_of
  provider_of-lookup name provider found = elim (Result-cases (get_provider node)) [
    | inr (e, refused) ↦ absurd (ground arith)
    | inl (n, named) ↦ elim (Option-cases (lookup n base.node_providers)) [
      | inl missing ↦ absurd (ground arith)
      | inr (p, there) ↦ ground arith
    ]
  ]

  reaped-IsCounted :
      (s : State)
      → IsCounted metered s
      → (drain metered node (called get_nodes s)).0 ≡ none
      → IsCounted metered (reap metered node (drain metered node (called get_nodes s)).1).1
  unfolding drain reap
  reaped-IsCounted s h drained = elim (Result-cases (provider_of metered node)) [
    | inr (e, refused) ↦ ground arith
    | inl ((name, provider), found) ↦
        let there = provider_of-lookup name provider found in ground arith
  ]

  pub run-IsCounted : (s : State) → IsCounted metered s → IsCounted metered (run metered node s).1
  run-IsCounted s h = elim (run-cases metered node s) [
    | inl (r, e) ↦ rw e (should_reap-IsCounted s h)
    | inr (inl (e, p, failed, done)) ↦ rw done (failed-IsCounted s e h failed)
    | inr (inr (p, drained, done)) ↦ rw done (reaped-IsCounted s h drained)
  ]

-- The handler fed with a sequence of nodes.
pub add_all : {Expr F : Type 0} → NodeReaper Expr F → List Node → State → State
add_all nr [] s = s
add_all nr (node ∷ nodes) s = add_all nr nodes (add nr node s).1

-- The counters of a reaper with `PromMetrics` are exactly those that the calls and their answers determine, if
-- they were before, whatever node events arrive, in whatever order: a drain is counted once, not again when it
-- is forced, and as failed if its last call answers an error; where reaping is not skipped, a reap is counted
-- for each drain that has answered none, and as failed if the node has no provider or the provider answers an
-- error.
pub add_all-IsCounted :
    {Expr F : Type 0} (nr : NodeReaper Expr F) (nodes : List Node) (s : State)
    → IsCounted (with_metrics prom_metrics nr) s
    → IsCounted (with_metrics prom_metrics nr) (add_all (with_metrics prom_metrics nr) nodes s)
unfolding add_all add
add_all-IsCounted nr [] s h = h
add_all-IsCounted nr (node ∷ nodes) s h =
    add_all-IsCounted nr nodes (run (with_metrics prom_metrics nr) node s).1
      (run-IsCounted nr node s h)
