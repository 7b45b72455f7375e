-- ===== src/Startup/Effect/Running.antt =====
-- What a program that has started does with its logger and with the events of nodes.
use node_reaper.Base.{ℕ, List, ◌∙◌, ap, sym, none, true, ◌≡◌, refl, ◌≢◌, [], ◌∷◌, arith, Bytes, ok}
use node_reaper.Config.Defs.{Config}
use node_reaper.Config.Load.{Files}
use node_reaper.Plugins.{NodeProviders, Plugins, returned}
use node_reaper.Reaper.Effects.{prom_metrics, State}
use node_reaper.Reaper.Safety.{reaps, drains}
use node_reaper.Controller.{Surroundings, Event, new_node_reaper, new_controller}
use node_reaper.Controller.Protocol.Switches.{
  handle_all-skips, handle_all-reap_counters, handle_all-dry,
}
use node_reaper.Startup.{
  Kubernetes, Services, Started, CmdFlags, Env, load_config, with_plugins, started, run,
}
use node_reaper.Log.Logger.{Use, uses}
use node_reaper.Log.Zap.{Logs, zap_logger, zero_zap}
use node_reaper.Log.Zap.Use.{uses-new}
use node_reaper.Startup.Effect.{run-IsStarted}

without_plugins :
    (npp : NodeProviders) (cfg : Config) → npp ≡ [] → (with_plugins npp cfg).skip_reaping ≡ true
without_plugins [] cfg alone = refl
without_plugins (p ∷ ps) cfg alone = cc

with_plugins-dry :
    (npp : NodeProviders) (cfg : Config) → (with_plugins npp cfg).dry_run ≡ cfg.dry_run
with_plugins-dry [] cfg = refl
with_plugins-dry (p ∷ ps) cfg = refl

ok-injective : {A : Type 0} {a b : A} → ok a ≡ ok b → a ≡ b
ok-injective e = cc

module _ {Plugin Rest Client Core Counter : Type 0} (plugins : Plugins Plugin) (files : Files)
    (k8s : Kubernetes Rest Client) (services : Services Core Counter) (env : Env)
    (flags : CmdFlags) where
  -- However the parts of a program that has started use its logger, nothing panics.
  pub run-logs :
      {Arg : Type 0} (of_string : Bytes → Arg) (z : Started Core Counter Client)
      (us : List (Use Arg)) (logs : Logs Core Arg)
      → run plugins files k8s services env flags ≡ returned (started z)
      → uses (zap_logger services.build of_string) z.logger us logs ≢ none
  run-logs of_string z us logs h =
      let s = run-IsStarted plugins files k8s services env flags z h in
      let (core, built, b, wrote) =
        uses-new services.build of_string zero_zap z.logger s.level us logs s.logging in
      λ panics. ground arith

  -- A program that starts without providers never calls one to reap a node, and counts neither a reap nor a
  -- failed one, whatever events arrive: it skips reaping, also where its configuration does not say so.
  pub run-without_providers :
      {Expr F : Type 0} (around : Surroundings Expr F) (z : Started Core Counter Client)
      (es : List Event) (s : State)
      → run plugins files k8s services env flags ≡ returned (started z)
      → z.providers ≡ []
      → (reaps (new_controller z.cfg around z.providers prom_metrics es s).calls ≡ reaps s.calls)
        × ((new_controller z.cfg around z.providers prom_metrics es s).metrics.reap_total
            ≡ s.metrics.reap_total)
        × ((new_controller z.cfg around z.providers prom_metrics es s).metrics.reap_fail
            ≡ s.metrics.reap_fail)
  unfolding new_controller
  run-without_providers around z es s h alone =
      let s' = run-IsStarted plugins files k8s services env flags z h in
      let nr = new_node_reaper z.cfg around z.providers prom_metrics in
      let skips : nr.cfg.skip_reaping ≡ true =
        ap (λ c. c.skip_reaping) s'.configured ∙ without_plugins z.providers s'.parsed alone in
      let counters = handle_all-reap_counters nr es s refl skips in
      (
        handle_all-skips nr es s skips,
        ap (λ (c : ℕ × ℕ). c.0) counters,
        ap (λ (c : ℕ × ℕ). c.1) counters,
      )

  -- A program whose configuration has `dryRun` set never drains or reaps a
  -- node, whatever events arrive.
  pub run-dry :
      {Expr F : Type 0} (around : Surroundings Expr F) (z : Started Core Counter Client)
      (parsed : Config) (es : List Event) (s : State)
      → run plugins files k8s services env flags ≡ returned (started z)
      → load_config env files flags ≡ ok parsed
      → parsed.dry_run ≡ true
      → (reaps (new_controller z.cfg around z.providers prom_metrics es s).calls ≡ reaps s.calls)
        × (drains (new_controller z.cfg around z.providers prom_metrics es s).calls
            ≡ drains s.calls)
  unfolding new_controller
  run-dry around z parsed es s h loaded dry =
      let s' = run-IsStarted plugins files k8s services env flags z h in
      let same : s'.parsed ≡ parsed = ok-injective (sym s'.loaded ∙ loaded) in
      handle_all-dry (new_node_reaper z.cfg around z.providers prom_metrics) es s (
        ap (λ c. c.dry_run) s'.configured
        ∙ with_plugins-dry z.providers s'.parsed
        ∙ ap (λ (c : Config). c.dry_run) same
        ∙ dry)
