-- ===== src/Startup/Effect.antt =====
-- What a start of the program leads to.
pub mod Running
use node_reaper.Base.{
  List, ◌∙◌, ap, sym, ℕ, Option, none, some, Result, err, codes, Bool-cases, subst, true, false,
  ◌↔◌, ◌≡◌, refl, ◌≢◌, inl, inr, [], ◌∷◌, arith, Bytes, ok,
}
use node_reaper.Config.Defs.{Config}
use node_reaper.Config.Load.{Files}
use node_reaper.Plugins.{
  NodeProviders, Outcome, Plugins, returned, refused, panicked, of_result, ◌>>>◌, load_plugins,
}
use node_reaper.Plugins.Registry.{IsRegistry, load_plugins-IsRegistry}
use node_reaper.Reaper.Effects.{State}
use node_reaper.Reaper.Safety.{reaps, drains}
use node_reaper.Controller.{Surroundings, Event, new_node_reaper, new_controller}
use node_reaper.Controller.Protocol.Switches.{handle_all-skips, handle_all-dry}
use node_reaper.Startup.{
  Kubernetes, Services, Started, of_call, of_metrics, loading, create_kubernetes_clients, CmdFlags,
  Env, resolve_config_chain, load_config, with_plugins, started, log_level, set_up, run,
}
use node_reaper.Log.Logger.{Use, uses}
use node_reaper.Log.Zap.{Logs, zap_logger, zero_zap, new}
use node_reaper.Log.Zap.Use.{uses-new}
use node_reaper.Metrics.{new_prometheus_metrics}

resolve_config_chain-flag :
    (from_env flag : Bytes) → flag ≢ [] → resolve_config_chain from_env flag ≡ flag
unfolding resolve_config_chain
resolve_config_chain-flag from_env [] ne = absurd (ne refl)
resolve_config_chain-flag [] (c ∷ s) ne = refl
resolve_config_chain-flag (x ∷ e) (c ∷ s) ne = refl

-- The environment variable for the configuration changes nothing unless the flag is the empty text,
-- which its default is not.
pub load_config-ignores_env :
    (env : Env) (files : Files) (flags : CmdFlags) (value : Bytes)
    → flags.config ≢ []
    → load_config (record env { config_env = value }) files flags ≡ load_config env files flags
unfolding load_config
load_config-ignores_env env files flags value ne = rw (
  resolve_config_chain-flag value flags.config ne,
  resolve_config_chain-flag env.config_env flags.config ne,
)

-- What comes before is returned, if the whole is.
>>>-returned :
    {A B : Type 0} (o : Outcome A) (f : A → Outcome B) (b : B)
    → (o >>> f) ≡ returned b
    → (a : A) × (o ≡ returned a) × (f a ≡ returned b)
>>>-returned (returned a) f b h = (a, refl, h)
>>>-returned (refused e) f b h = cc
>>>-returned panicked f b h = cc

of_result-returned : {A : Type 0} (r : Result A) (a : A) → of_result r ≡ returned a → r ≡ ok a
of_result-returned (ok x) a h = cc
of_result-returned (err e) a h = cc

of_call-returned :
    {A : Type 0} (r : Option (Result A)) (a : A) → of_call r ≡ returned a → r ≡ some (ok a)
of_call-returned none a h = cc
of_call-returned (some r) a h = ap some (of_result-returned r a h)

of_metrics-returned :
    {A B : Type 0} (r : Option (A × B)) (a : A)
    → of_metrics r ≡ returned a
    → (b : B) × (r ≡ some (a, b))
of_metrics-returned none a h = cc
of_metrics-returned (some (x, y)) a h = (y, cc)

loading-returned :
    (o : Outcome NodeProviders) (npp : NodeProviders) → loading o ≡ returned npp → o ≡ returned npp
loading-returned (returned t) npp h = h
loading-returned (refused e) npp h = cc
loading-returned panicked npp h = cc

module _ {Plugin Rest Client Core Counter : Type 0} (plugins : Plugins Plugin) (files : Files)
    (k8s : Kubernetes Rest Client) (services : Services Core Counter) (env : Env)
    (flags : CmdFlags) where
  -- What a start consists of.
  pub record IsStarted (z : Started Core Counter Client) : Type 0 where
    pub level : ℕ
    pub parsed : Config
    pub patterns : List Bytes
    pub runs : flags.version ≡ false
    pub read : log_level flags ≡ ok level
    pub logging : new services.build zero_zap level ≡ some (ok z.logger)
    pub loaded : load_config env files flags ≡ ok parsed
    pub created : create_kubernetes_clients k8s env flags ≡ ok z.client
    pub found : load_plugins plugins flags.provider_plugins ≡ returned z.providers
    pub serving :
        new_prometheus_metrics services.prometheus (codes "/metrics") services.patterns
        ≡ some (z.metrics, patterns)
    pub configured : z.cfg ≡ with_plugins z.providers parsed

  set_up-IsStarted :
      (z : Started Core Counter Client)
      → flags.version ≡ false
      → set_up plugins files k8s services env flags ≡ returned z
      → IsStarted z
  unfolding set_up
  set_up-IsStarted z runs h =
      let (level, read, h1) = >>>-returned (of_result (log_level flags)) _ z h in
      let (logger, logging, h2) =
        >>>-returned (of_call (new services.build zero_zap level)) _ z h1 in
      let (parsed, loaded, h3) = >>>-returned (of_result (load_config env files flags)) _ z h2 in
      let (client, created, h4) =
        >>>-returned (of_result (create_kubernetes_clients k8s env flags)) _ z h3 in
      let (npp, found, h5) =
        >>>-returned (loading (load_plugins plugins flags.provider_plugins)) _ z h4 in
      let (metrics, serving, h6) =
        >>>-returned
          (of_metrics
            (new_prometheus_metrics services.prometheus (codes "/metrics") services.patterns))
          _ z h5 in
      let (patterns, served) =
        of_metrics-returned
          (new_prometheus_metrics services.prometheus (codes "/metrics") services.patterns) metrics
          serving in
      subst IsStarted (cc) (record {
        level = level;
        parsed = parsed;
        patterns = patterns;
        runs = runs;
        read = of_result-returned (log_level flags) level read;
        logging = of_call-returned (new services.build zero_zap level) logger logging;
        loaded = of_result-returned (load_config env files flags) parsed loaded;
        created = of_result-returned (create_kubernetes_clients k8s env flags) client created;
        found = loading-returned (load_plugins plugins flags.provider_plugins) npp found;
        serving = served;
        configured = refl;
      })

  pub run-IsStarted :
      (z : Started Core Counter Client)
      → run plugins files k8s services env flags ≡ returned (started z)
      → IsStarted z
  unfolding run
  run-IsStarted z h = elim (Bool-cases flags.version) [
    | inl version ↦ absurd (ground arith)
    | inr runs ↦
        let (z', made, same) =
          >>>-returned (set_up plugins files k8s services env flags) (λ x. returned (started x))
            (started z) (ground arith) in
        set_up-IsStarted z runs (made ∙ cc)
  ]
