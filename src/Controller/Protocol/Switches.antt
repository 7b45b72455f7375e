-- ===== src/Controller/Protocol/Switches.antt =====
-- What the switches of the configuration rule out, over any sequence of events.
use node_reaper.Base.{ℕ, inl, inr, ◌≡◌, refl, ◌∙◌, true, Option, List, [], ◌∷◌, arith, Error}
use node_reaper.Node.{Node}
use node_reaper.Reaper.Effects.{NodeReaper, State, Call, prom_metrics, called, get_nodes}
use node_reaper.Reaper.{add, should_reap, drain, reap, run}
use node_reaper.Reaper.Safety.{drains, reaps, should_reap-effects, run-cases}
use node_reaper.Controller.{Event, added, deleted, handle, handle_all}
use node_reaper.Controller.Protocol.{
  Attempts, once, twice, Turn, ignore, look, drain_only, drain_and_reap, run-Turn,
}

module _ {Expr F : Type 0} (nr : NodeReaper Expr F) where
  Attempts-reaps :
      {cs cs' : List Call} {node : Node} {r : Option Error}
      → Attempts nr cs node r cs'
      → reaps cs' ≡ reaps cs
  Attempts-reaps (once answered) = refl
  Attempts-reaps (twice retries failed answered) = refl

  Turn-reaps :
      {cs cs' : List Call} → nr.cfg.skip_reaping ≡ true → Turn nr cs cs' → reaps cs' ≡ reaps cs
  Turn-reaps skips ignore = refl
  Turn-reaps skips look = refl
  Turn-reaps skips (drain_only real attempts) = Attempts-reaps attempts
  Turn-reaps skips (drain_and_reap real wanted got attempts) = cc

  Turn-dry :
      {cs cs' : List Call}
      → nr.cfg.dry_run ≡ true
      → Turn nr cs cs'
      → (reaps cs' ≡ reaps cs) × (drains cs' ≡ drains cs)
  Turn-dry dry ignore = (refl, refl)
  Turn-dry dry look = (refl, refl)
  Turn-dry dry (drain_only real attempts) = absurd (ground arith)
  Turn-dry dry (drain_and_reap real wanted got attempts) = absurd (ground arith)

  -- With skipReaping no node is ever reaped, whatever events arrive.
  pub handle_all-skips :
      (es : List Event) (s : State)
      → nr.cfg.skip_reaping ≡ true
      → reaps (handle_all nr es s).calls ≡ reaps s.calls
  unfolding handle_all add
  handle_all-skips [] s skips = refl
  handle_all-skips (added node ∷ es) s skips =
      handle_all-skips es (handle nr (added node) s) skips ∙ Turn-reaps skips (run-Turn nr node s)
  handle_all-skips (deleted name ∷ es) s skips = handle_all-skips es s skips

  -- The counters of reaps.
  abbrev pub reap_counters : State → ℕ × ℕ
  reap_counters s = (s.metrics.reap_total, s.metrics.reap_fail)

  drain-reap_counters :
      (node : Node) (s : State)
      → nr.m_reg ≡ prom_metrics
      → reap_counters (drain nr node s).1 ≡ reap_counters s
  unfolding drain
  drain-reap_counters node s prom = ground arith

  reap_skipped : (node : Node) (s : State) → nr.cfg.skip_reaping ≡ true → (reap nr node s).1 ≡ s
  unfolding reap
  reap_skipped node s skips = ground arith

  should_reap-reap_counters :
      (node : Node) (s : State) → reap_counters (should_reap nr node s).1 ≡ reap_counters s
  should_reap-reap_counters node s = elim (should_reap-effects nr node s) [
    | inl e ↦ rw e refl
    | inr e ↦ rw e refl
  ]

  run-reap_counters :
      (node : Node) (s : State)
      → nr.m_reg ≡ prom_metrics
      → nr.cfg.skip_reaping ≡ true
      → reap_counters (run nr node s).1 ≡ reap_counters s
  run-reap_counters node s prom skips = elim (run-cases nr node s) [
    | inl (r, e) ↦ rw e (should_reap-reap_counters node s)
    | inr (inl (e, p, failed, done)) ↦ rw done (drain-reap_counters node (called get_nodes s) prom)
    | inr (inr (p, drained, done)) ↦
        rw (done, reap_skipped node (drain nr node (called get_nodes s)).1 skips)
          (drain-reap_counters node (called get_nodes s) prom)
  ]

  -- With skipReaping no reap is counted, whatever events arrive.
  pub handle_all-reap_counters :
      (es : List Event) (s : State)
      → nr.m_reg ≡ prom_metrics
      → nr.cfg.skip_reaping ≡ true
      → reap_counters (handle_all nr es s) ≡ reap_counters s
  unfolding handle_all add
  handle_all-reap_counters [] s prom skips = refl
  handle_all-reap_counters (added node ∷ es) s prom skips =
      handle_all-reap_counters es (handle nr (added node) s) prom skips
      ∙ run-reap_counters node s prom skips
  handle_all-reap_counters (deleted name ∷ es) s prom skips =
      handle_all-reap_counters es s prom skips

  -- In a dry run no node is ever drained or reaped, whatever events arrive.
  pub handle_all-dry :
      (es : List Event) (s : State)
      → nr.cfg.dry_run ≡ true
      → (reaps (handle_all nr es s).calls ≡ reaps s.calls)
        × (drains (handle_all nr es s).calls ≡ drains s.calls)
  unfolding handle_all add
  handle_all-dry [] s dry = (refl, refl)
  handle_all-dry (added node ∷ es) s dry =
      let (reaps', drains') = handle_all-dry es (handle nr (added node) s) dry in
      let (reaps'', drains'') = Turn-dry dry (run-Turn nr node s) in
      (reaps' ∙ reaps'', drains' ∙ drains'')
  handle_all-dry (deleted name ∷ es) s dry = handle_all-dry es s dry
