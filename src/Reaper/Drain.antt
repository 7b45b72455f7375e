-- ===== src/Reaper/Drain.antt =====
-- What `NodeReaper.drain` returns, calls and counts.
use node_reaper.Base.{
  ◌≡◌, ◌↔◌, ◌⊎◌, true, Option, none, some, List, ◌∷◌, arith, Error, if◌then◌else◌,
}
use node_reaper.Node.{Node}
use node_reaper.Reaper.Effects.{NodeReaper, Metrics, State, Call, drain_node}
use node_reaper.Reaper.{options, force_retry_options, drain}

module _ {Expr F : Type 0} (nr : NodeReaper Expr F) (node : Node) (s : State) where
  -- The answers of the attempt with the configured options, and of the forced one after it.
  abbrev pub first_attempt : Option Error
  first_attempt = nr.drain_node_fn s.calls node (options nr)

  abbrev pub second_attempt : Option Error
  second_attempt =
      nr.drain_node_fn (drain_node node (options nr) ∷ s.calls) node (force_retry_options nr)

  -- Draining succeeds exactly in a dry run, when the first attempt does, or when retrying by force is
  -- on and the second attempt does.
  pub drain-none_iff : ((drain nr node s).0 ≡ none) ↔ (
      (nr.cfg.dry_run ≡ true)
      ⊎ (first_attempt ≡ none)
      ⊎ ((nr.cfg.drain_force_retry_on_error ≡ true) × (second_attempt ≡ none)))
  unfolding drain
  drain-none_iff = ground arith

  -- The calls that draining makes.
  abbrev pub drain_calls : List Call
  drain_calls = if nr.cfg.dry_run then s.calls else elim first_attempt [
    | none ↦ drain_node node (options nr) ∷ s.calls
    | some e ↦
        if nr.cfg.drain_force_retry_on_error
        then drain_node node (force_retry_options nr) ∷ drain_node node (options nr) ∷ s.calls
        else drain_node node (options nr) ∷ s.calls
  ]

  pub drain-calls : (drain nr node s).1.calls ≡ drain_calls
  unfolding drain
  drain-calls = ground arith

  -- What draining does to the counters.
  abbrev pub drain_metrics : Metrics
  drain_metrics = if nr.cfg.dry_run then s.metrics else elim (drain nr node s).0 [
    | none ↦ nr.m_reg.inc_node_drain_total s.metrics
    | some e ↦ nr.m_reg.inc_node_drain_fail (nr.m_reg.inc_node_drain_total s.metrics)
  ]

  -- A drain that is no dry run calls the drainer with the configured options, and again with the forced
  -- ones exactly when the first attempt fails and retrying is on; it counts one drain, and one failure
  -- exactly when it returns an error. A dry run calls and counts nothing.
  pub drain-effects :
      ((drain nr node s).1.calls ≡ drain_calls) × ((drain nr node s).1.metrics ≡ drain_metrics)
  unfolding drain
  drain-effects = ground arith
