-- ===== src/Reaper/Safety.antt =====
-- What `NodeReaper.Run` may do to the cluster, and when.
use node_reaper.Base.{
  ℕ, ◌≡◌, refl, ◌≢◌, ◌⊎◌, inl, inr, Bool, true, false, Option, none, some, List, ◌∷◌, arith, Bytes,
  ok, err, Error, wrap_error, reaping, count_if, ap, sym, subst, ◌∙◌, Bool-cases, Result-cases,
  Option-cases,
}
use node_reaper.Base.Table.{lookup}
use node_reaper.Node.{Node}
use node_reaper.Reaper.Effects.{
  NodeReaper, NodeProvider, State, Call, get_nodes, drain_node, reap_node, called,
}
use node_reaper.Reaper.{get_provider, provider_of, should_reap, drain, reap, run}
use node_reaper.Reaper.Decision.{Permitted, should_reap-true_iff}
use node_reaper.Reaper.Drain.{drain-calls}

abbrev pub is_drain : Call → Bool
is_drain (drain_node n o) = true
is_drain _ = false

abbrev pub is_reap : Call → Bool
is_reap (reap_node p n) = true
is_reap _ = false

-- The calls among some that drain a node, and those that reap one.
abbrev pub drains : List Call → ℕ
drains = count_if is_drain

abbrev pub reaps : List Call → ℕ
reaps = count_if is_reap

module _ {Expr F : Type 0} (nr : NodeReaper Expr F) (node : Node) where
  provider_of-ok :
      (name : Bytes) (provider : NodeProvider)
      → provider_of nr node ≡ ok (name, provider)
      → (get_provider node ≡ ok name) × (lookup name nr.node_providers ≡ some provider)
  unfolding provider_of
  provider_of-ok name provider h = elim (Result-cases (get_provider node)) [
    | inl (name', got) ↦ elim (Option-cases (lookup name' nr.node_providers)) [
      | inl missing ↦ ground arith
      | inr (provider', found) ↦ ground arith
    ]
    | inr (e, refused) ↦ ground arith
  ]

  drain_dry : (s : State) → nr.cfg.dry_run ≡ true → (drain nr node s).1 ≡ s
  unfolding drain
  drain_dry s dry = ground arith

  reap_dry : (s : State) → nr.cfg.dry_run ≡ true → (reap nr node s).1 ≡ s
  unfolding reap
  reap_dry s dry = ground arith

  pub drain-reaps : (s : State) → reaps (drain nr node s).1.calls ≡ reaps s.calls
  drain-reaps s = ground (arith, drain-calls nr node s)

  -- Deciding lists the nodes at most, and counts nothing.
  pub should_reap-effects :
      (s : State)
      → ((should_reap nr node s).1 ≡ s) ⊎ ((should_reap nr node s).1 ≡ called get_nodes s)
  unfolding should_reap
  should_reap-effects s = ground arith

  should_reap-reaps :
      (s : State)
      → (reaps (should_reap nr node s).1.calls ≡ reaps s.calls)
        × (drains (should_reap nr node s).1.calls ≡ drains s.calls)
        × ((should_reap nr node s).1.metrics ≡ s.metrics)
  should_reap-reaps s = ground (arith, should_reap-effects s)

  -- A yes comes after the nodes were listed.
  should_reap-state :
      (s : State) → Permitted nr node s → (should_reap nr node s).1 ≡ called get_nodes s
  unfolding should_reap
  should_reap-state s (nodes, reapable, old, listed, safe) = ground arith

  -- What `reap` has done if it has called a provider.
  abbrev pub Reaped : State → State → Type 0
  Reaped t t' =
      (name : Bytes) × (provider : NodeProvider) × (nr.cfg.dry_run ≡ false)
      × (nr.cfg.skip_reaping ≡ false)
      × (get_provider node ≡ ok name)
      × (lookup name nr.node_providers ≡ some provider)
      × (t'.calls ≡ reap_node name node ∷ t.calls)

  reap-Reaped :
      (t : State) → reaps (reap nr node t).1.calls ≢ reaps t.calls → Reaped t (reap nr node t).1
  unfolding reap
  reap-Reaped t h = elim (Result-cases (provider_of nr node)) [
    | inl ((name, provider), found) ↦
        let (got, known) = provider_of-ok name provider found in
        (name, provider, ground arith, ground arith, got, known, ground arith)
    | inr (e, refused) ↦ ground arith
  ]

-- The branches of `Run`, by the decision and by the drain.
module _ {Expr F : Type 0} (nr : NodeReaper Expr F) (node : Node) (s : State) where
  run_error :
      (e : Error)
      → (should_reap nr node s).0 ≡ err e
      → run nr node s ≡ (some e, (should_reap nr node s).1)
  unfolding run
  run_error e h = ground arith

  run_declined :
      (should_reap nr node s).0 ≡ ok false → run nr node s ≡ (none, (should_reap nr node s).1)
  unfolding run
  run_declined h = ground arith

  run_undrained :
      (e : Error)
      → Permitted nr node s
      → (drain nr node (called get_nodes s)).0 ≡ some e
      → run nr node s ≡ (some e, (drain nr node (called get_nodes s)).1)
  unfolding run
  run_undrained e p failed =
      ground (arith, (should_reap-true_iff nr node s).1 p, should_reap-state nr node s p)

  pub run_drained :
      Permitted nr node s
      → (drain nr node (called get_nodes s)).0 ≡ none
      → run nr node s ≡ (
          let (reaped, s') = reap nr node (drain nr node (called get_nodes s)).1 in
          (wrap_error reaping reaped, s'))
  unfolding run
  run_drained p drained =
      ground (arith, (should_reap-true_iff nr node s).1 p, should_reap-state nr node s p)

  -- How a run comes to its end.
  abbrev RunCase : Type 0
  RunCase =
      ((r : Option Error) × (run nr node s ≡ (r, (should_reap nr node s).1)))
      ⊎ ((e : Error) × Permitted nr node s
          × ((drain nr node (called get_nodes s)).0 ≡ some e)
          × (run nr node s ≡ (some e, (drain nr node (called get_nodes s)).1)))
      ⊎ (Permitted nr node s
          × ((drain nr node (called get_nodes s)).0 ≡ none)
          × ((run nr node s).1 ≡ (reap nr node (drain nr node (called get_nodes s)).1).1))

  pub run-cases : RunCase
  run-cases = elim (Result-cases (should_reap nr node s).0) [
    | inr (e, failed) ↦ inl (some e, run_error e failed)
    | inl (false, no_) ↦ inl (none, run_declined no_)
    | inl (true, yes_) ↦
        let p = (should_reap-true_iff nr node s).0 yes_ in
        elim (Option-cases (drain nr node (called get_nodes s)).0) [
          | inr (e, failed) ↦ inr (inl (e, p, failed, run_undrained e p failed))
          | inl drained ↦
              inr (inr (p, drained, ap (λ (x : Option Error × State). x.1) (run_drained p drained)))
        ]
  ]

  -- A failed drain ends the run with its error, and the node is not reaped.
  pub run-drain_failed :
      (e : Error)
      → Permitted nr node s
      → (drain nr node (called get_nodes s)).0 ≡ some e
      → ((run nr node s).0 ≡ some e) × (reaps (run nr node s).1.calls ≡ reaps s.calls)
  run-drain_failed e p failed =
      rw (run_undrained e p failed) (refl, drain-reaps nr node (called get_nodes s))

  -- A run that reaps was permitted, is no dry run and does not skip reaping; the node has been drained
  -- without an error, and the call of the provider that the node names comes last.
  pub run-reaps_only_drained :
      reaps (run nr node s).1.calls ≢ reaps s.calls
      → Permitted nr node s
        × ((drain nr node (called get_nodes s)).0 ≡ none)
        × Reaped nr node (drain nr node (called get_nodes s)).1 (run nr node s).1
  run-reaps_only_drained h = elim run-cases [
    | inl (r, e) ↦ absurd (h (rw e ((should_reap-reaps nr node s).0)))
    | inr (inl (e, p, failed, _)) ↦ absurd (h (run-drain_failed e p failed).1)
    | inr (inr (p, drained, e)) ↦ (
      p,
      drained,
      rw e (
          reap-Reaped nr node (drain nr node (called get_nodes s)).1 (λ same. h (
            ap (λ (t : State). reaps t.calls) e
            ∙ same
            ∙ drain-reaps nr node (called get_nodes s)))),
    )
  ]

  run_dry : nr.cfg.dry_run ≡ true → (run nr node s).1 ≡ (should_reap nr node s).1
  run_dry dry = elim run-cases [
    | inl (r, e) ↦ ap (λ (x : Option Error × State). x.1) e
    | inr (inl (e, p, failed, done)) ↦
        ap (λ (x : Option Error × State). x.1) done
        ∙ drain_dry nr node (called get_nodes s) dry
        ∙ sym (should_reap-state nr node s p)
    | inr (inr (p, drained, done)) ↦
        done
        ∙ reap_dry nr node (drain nr node (called get_nodes s)).1 dry
        ∙ drain_dry nr node (called get_nodes s) dry
        ∙ sym (should_reap-state nr node s p)
  ]

  -- What a run leaves alone if it neither drains nor reaps.
  abbrev pub Untouched : State → Type 0
  Untouched t =
      (drains t.calls ≡ drains s.calls) × (reaps t.calls ≡ reaps s.calls) × (t.metrics ≡ s.metrics)

  untouched : Untouched (should_reap nr node s).1
  untouched = let (r, d, m) = should_reap-reaps nr node s in (d, r, m)

  -- A run was permitted and is no dry run, or it drains nothing, reaps nothing and counts nothing.
  pub run-touches_only-Permitted :
      (Permitted nr node s × (nr.cfg.dry_run ≡ false)) ⊎ Untouched (run nr node s).1
  run-touches_only-Permitted = elim (Bool-cases nr.cfg.dry_run) [
    | inl dry ↦ inr (subst Untouched (sym (run_dry dry)) untouched)
    | inr real ↦ elim run-cases [
      | inl (r, e) ↦
          inr (subst Untouched (sym (ap (λ (x : Option Error × State). x.1) e)) untouched)
      | inr (inl (e, p, failed, done)) ↦ inl (p, real)
      | inr (inr (p, drained, done)) ↦ inl (p, real)
    ]
  ]
