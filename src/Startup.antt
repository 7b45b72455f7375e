-- ===== src/Startup.antt =====
-- cmd/nodereaper/main.go: the flags, and what `Main.Run` sets up before the controller runs.
-- `Startup.Process` is what comes after.
pub mod Effect
pub mod Process
use node_reaper.Base.{
  ℕ, Bool, true, false, Option, none, some, List, [], ◌∷◌, ◌++◌, Bytes, codes, split, Result, ok,
  err, Error, wrapped, context, ◌>>=◌, loading_kubeconfig, loading_in_cluster_config,
  could_not_load, could_not_parse, loading_plugins, if◌then◌else◌,
}
use node_reaper.Config.Defs.{File, Config}
use node_reaper.Config.Load.{Files, load}
use node_reaper.Config.Parse.{parse}
use node_reaper.Log.{info, string_to_log_level}
use node_reaper.Log.Zap.{ZapConfig, Zap, zero_zap, new}
use node_reaper.Metrics.{Prometheus, PromMetrics, new_prometheus_metrics}
use node_reaper.Plugins.{
  NodeProviders, Plugins, Outcome, returned, refused, panicked, of_result, ◌>>>◌, load_plugins,
}

pub record CmdFlags : Type 0 where
  pub config : Bytes
  pub kube_config : Bytes
  pub log_level : Bytes
  pub listen_addr : Bytes
  pub version : Bool
  pub provider_plugins : List Bytes

-- The values that `cmdFlags.init` gives to the flags that are not passed.
abbrev pub default_flags : CmdFlags
default_flags = record {
  config = codes "node-reaper.yaml";
  kube_config = [];
  log_level = [];
  listen_addr = codes ":8080";
  version = false;
  provider_plugins = [];
}

-- `providerPlugins.Set`, which the flag package calls for each `-plugin`.
unfoldable pub set_plugins : Bytes → List Bytes → List Bytes
unfolding split
set_plugins value plugins = plugins ++ split value b','

-- `providerPlugins.String`, which prints the paths as `fmt.Sprint` does, and `providerPlugins.Type`
abbrev pub join_paths : List Bytes → Bytes
join_paths [] = []
join_paths (path ∷ []) = path
join_paths (path ∷ next ∷ paths) = path ++ b' ' ∷ join_paths (next ∷ paths)

abbrev pub plugins_string : List Bytes → Bytes
plugins_string plugins = b'[' ∷ join_paths plugins ++ b']' ∷ []

abbrev pub plugins_type : Bytes
plugins_type = codes "providerPlugins"

-- `printVersion`, with the version and the commit that are set when the program is built.
abbrev pub print_version : Bytes → Bytes → Bytes
print_version version git_commit =
    codes "NodeReaper v" ++ version ++ codes " -- " ++ git_commit ++ b'\n' ∷ []

-- `resolveConfigChain`, with the cleaned value of the environment variable.
unfoldable pub resolve_config_chain : Bytes → Bytes → Bytes
resolve_config_chain [] [] = []
resolve_config_chain (c ∷ s) [] = c ∷ s
resolve_config_chain from_env (c ∷ s) = c ∷ s

-- The environment: its variables, the absolute path of one, and the version and the commit that the build
-- has set.
pub record Env : Type 0 where
  pub version : Bytes
  pub git_commit : Bytes
  pub config_env : Bytes
  pub kube_config_env : Bytes
  pub abs_path : Bytes → Bytes

-- The client library of Kubernetes: `BuildConfigFromFlags`, `InClusterConfig` and `NewForConfig`.
pub record Kubernetes (Rest Client : Type 0) : Type 0 where
  pub build_config : Bytes → Result Rest
  pub in_cluster_config : Result Rest
  pub new_for_config : Rest → Result Client

-- `Main.loadConfig`
unfoldable pub load_config : Env → Files → CmdFlags → Result Config
load_config env files flags = do
  file ←
      context could_not_load
        (load files (env.abs_path (resolve_config_chain env.config_env flags.config)))
  context could_not_parse (parse file)

-- `Main.loadKubernetesConfig`
unfoldable pub load_kubernetes_config :
    {Rest Client : Type 0} → Kubernetes Rest Client → Bytes → Result Rest
load_kubernetes_config k8s [] = context loading_in_cluster_config k8s.in_cluster_config
load_kubernetes_config k8s (c ∷ path) = context loading_kubeconfig (k8s.build_config (c ∷ path))

-- `Main.createKubernetesClients`
unfoldable pub create_kubernetes_clients :
    {Rest Client : Type 0} → Kubernetes Rest Client → Env → CmdFlags → Result Client
unfolding load_kubernetes_config
create_kubernetes_clients k8s env flags = do
  rest ← load_kubernetes_config k8s (resolve_config_chain env.kube_config_env flags.kube_config)
  k8s.new_for_config rest

-- The level that `Run` logs at.
unfoldable pub log_level : CmdFlags → Result ℕ
log_level flags = elim flags.log_level [ [] ↦ ok info | c ∷ s ↦ string_to_log_level (c ∷ s) ]

-- Without plugins reaping is disabled.
abbrev pub with_plugins : NodeProviders → Config → Config
with_plugins [] cfg = record cfg { skip_reaping = true }
with_plugins (p ∷ ps) cfg = cfg

-- The libraries of the logger and of the metrics: what `Build` makes of a configuration, Prometheus, and
-- the patterns that the default mux has.
pub record Services (Core Counter : Type 0) : Type 0 where
  pub build : ZapConfig → Result Core
  pub prometheus : Prometheus Counter
  pub patterns : List Bytes

-- What `Run` starts the controller with.
pub record Started (Core Counter Client : Type 0) : Type 0 where
  pub logger : Zap Core
  pub metrics : PromMetrics Counter
  pub cfg : Config
  pub client : Client
  pub providers : NodeProviders

-- `Run` starts the controller, or only prints the version.
pub data Start (Core Counter Client : Type 0) : Type 0 where
  printed_version : Bytes → Start Core Counter Client
  started : Started Core Counter Client → Start Core Counter Client

-- The result of a function that may panic.
abbrev pub of_call : {A : Type 0} → Option (Result A) → Outcome A
of_call none = panicked
of_call (some r) = of_result r

-- `fmt.Errorf` around the error of loading the plugins.
abbrev pub loading : Outcome NodeProviders → Outcome NodeProviders
loading (returned npp) = returned npp
loading (refused e) = refused (wrapped loading_plugins e)
loading panicked = panicked

-- The metrics, whose creation may panic.
abbrev pub of_metrics : {A B : Type 0} → Option (A × B) → Outcome A
of_metrics none = panicked
of_metrics (some (a, b)) = returned a

module _ {Plugin Rest Client Core Counter : Type 0} (plugins : Plugins Plugin) (files : Files)
    (k8s : Kubernetes Rest Client) (services : Services Core Counter) (env : Env) where
  -- What `Main.Run` does before it starts the controller.
  unfoldable pub set_up : CmdFlags → Outcome (Started Core Counter Client)
  set_up flags = of_result (log_level flags) >>> λ level.
      of_call (new services.build zero_zap level) >>> λ logger.
      of_result (load_config env files flags) >>> λ cfg.
      of_result (create_kubernetes_clients k8s env flags) >>> λ client.
      loading (load_plugins plugins flags.provider_plugins) >>> λ npp.
      of_metrics (new_prometheus_metrics services.prometheus (codes "/metrics") services.patterns)
      >>> λ metrics. returned (record {
        logger = logger;
        metrics = metrics;
        cfg = with_plugins npp cfg;
        client = client;
        providers = npp;
      })

  -- `Main.Run` up to the start of the controller.
  unfoldable pub run : CmdFlags → Outcome (Start Core Counter Client)
  unfolding set_up
  run flags =
      if flags.version
      then returned (printed_version (print_version env.version env.git_commit))
      else set_up flags >>> λ z. returned (started z)
