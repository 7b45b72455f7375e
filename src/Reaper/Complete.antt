-- ===== src/Reaper/Complete.antt =====
-- When exactly a run of pkg/nodereaper/nodereaper.go calls a provider.
use node_reaper.Base.{
  suc, ◌≡◌, ◌≢◌, ◌↔◌, ◌∙◌, ap, Option, none, some, Error, ◌∷◌, arith, Bytes, ok, false,
}
use node_reaper.Base.Table.{lookup}
use node_reaper.Node.{Node}
use node_reaper.Reaper.Effects.{NodeReaper, NodeProvider, State, get_nodes, called, reap_node}
use node_reaper.Reaper.{get_provider, provider_of, drain, reap, run}
use node_reaper.Reaper.Decision.{Permitted}
use node_reaper.Reaper.Safety.{reaps, drain-reaps, run_drained, run-reaps_only_drained}

module _ {Expr F : Type 0} (nr : NodeReaper Expr F) (node : Node) where
  -- The node names a provider that is loaded, and reaping is neither switched off nor a dry run.
  abbrev pub CanReap : Type 0
  CanReap =
      (nr.cfg.dry_run ≡ false)
      × (nr.cfg.skip_reaping ≡ false)
      × (name : Bytes) × (p : NodeProvider) × (get_provider node ≡ ok name)
      × (lookup name nr.node_providers ≡ some p)

  provider_of-found :
      (name : Bytes) (p : NodeProvider)
      → get_provider node ≡ ok name
      → lookup name nr.node_providers ≡ some p
      → provider_of nr node ≡ ok (name, p)
  unfolding provider_of
  provider_of-found name p got found = ground (arith, got, found)

  reap-calls :
      (t : State) (name : Bytes) (p : NodeProvider)
      → nr.cfg.dry_run ≡ false
      → nr.cfg.skip_reaping ≡ false
      → provider_of nr node ≡ ok (name, p)
      → (reap nr node t).1.calls ≡ reap_node name node ∷ t.calls
  unfolding reap
  reap-calls t name p real reaping found = ground (arith, found)

  -- A run calls a provider exactly if the node is permitted, draining it returns no error, the node names
  -- a provider that is loaded, and reaping is neither switched off nor a dry run.
  pub run-reaps_iff :
      (s : State)
      → (reaps (run nr node s).1.calls ≢ reaps s.calls)
        ↔ (Permitted nr node s × ((drain nr node (called get_nodes s)).0 ≡ none) × CanReap)
  run-reaps_iff s = (to, from)
    where
      to :
          reaps (run nr node s).1.calls ≢ reaps s.calls
          → Permitted nr node s × ((drain nr node (called get_nodes s)).0 ≡ none) × CanReap
      to h =
          let (permitted, drained, (name, p, real, reaping, got, found, calls)) =
            run-reaps_only_drained nr node s h in
          (permitted, drained, (real, reaping, name, p, got, found))

      from :
          Permitted nr node s × ((drain nr node (called get_nodes s)).0 ≡ none) × CanReap
          → reaps (run nr node s).1.calls ≢ reaps s.calls
      from (permitted, drained, (real, reaping, name, p, got, found)) same =
          let t = (drain nr node (called get_nodes s)).1 in
          let whole : (run nr node s).1 ≡ (reap nr node t).1 =
            ap (λ (x : Option Error × State). x.1) (run_drained nr node s permitted drained) in
          let calls = reap-calls t name p real reaping (provider_of-found name p got found) in
          let counted : reaps (run nr node s).1.calls ≡ suc (reaps t.calls) =
            ap (λ (x : State). reaps x.calls) whole ∙ ap reaps calls in
          absurd (omega (arith, same, counted, drain-reaps nr node (called get_nodes s)))
