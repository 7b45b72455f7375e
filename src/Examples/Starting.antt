-- ===== src/Examples/Starting.antt =====
-- The levels of pkg/log/log.go, and starts of cmd/nodereaper/main.go.
use node_reaper.Base.{
  split, ◌++◌, ℕ, some, ◌≡◌, refl, none, some, [], ◌∷◌, Bytes, codes, bytes_eq, Result, ok, err,
  Error, foreign, failure, wrapped, loading_plugin, if◌then◌else◌, duplicate_plugin,
}
use node_reaper.Base.Table.{lookup, insert}
use node_reaper.Config.Defs.{default_config, file_eq}
use node_reaper.Config.Load.{Files, load}
use node_reaper.Config.Limit.{limit_type}
use node_reaper.Config.Parse.{parse}
use node_reaper.Config.Parse.Outcome.{config_of}
use node_reaper.Log.{info, string_to_log_level}
use node_reaper.Reaper.Effects.{prom_metrics, NodeProvider}
use node_reaper.Plugins.{
  NodeProviders, provider, Plugins, returned, refused, panicked, merge, load_plugin, load_files,
  load_directory, load_path, load_paths, load_plugins,
}
use node_reaper.Plugins.Ensures.{Ensures, EnsuresOutcome}
use node_reaper.Plugins.Kept.{Keeps, load_paths-Keeps}
use node_reaper.Plugins.Registry.{IsBroken, load_plugins-panics}
use node_reaper.Startup.{
  plugins_string, print_version, default_flags, set_plugins, resolve_config_chain, Env, load_config,
  log_level, with_plugins, started, run,
}
use node_reaper.Startup.Effect.Running.{run-dry, run-without_providers}
use node_reaper.Log.Zap.{ZapConfig, opinionated, same_string, same_slice, Zap, new}
use node_reaper.Metrics.{CounterOpts, made, new_prometheus_metrics}
use node_reaper.Examples.Logging.{by_name}
use node_reaper.Startup.{Services, Started, Kubernetes, create_kubernetes_clients}
use node_reaper.Controller.{Surroundings, added, deleted, new_controller}
use node_reaper.Reaper.Safety.{reaps, drains}
use node_reaper.Examples.Reaping.{Expr, reaper, healthy, cordoned, fresh}

info_read : string_to_log_level (codes "INFO") ≡ ok info
unfolding string_to_log_level bytes_eq
info_read = refl

abbrev missing : Error
missing = foreign (codes "no such file")

abbrev aws : NodeProvider
aws = record { type = codes "aws"; reap = λ calls node. none }

-- A directory `plugins` with a plugin and a text; `aws.so` is the plugin, and nothing else is there.
abbrev is_aws : Bytes → Result Bytes
is_aws path = if bytes_eq path (codes "plugins/aws.so") then ok path else err missing

abbrev plugins : Plugins Bytes
plugins = record {
  open_plugin = is_aws;
  lookup_symbol = λ plugin name. ok (provider aws);
  is_dir = λ path. ok (bytes_eq path (codes "plugins"));
  read_dir = λ path. ok (codes "README" ∷ codes "aws.so" ∷ []);
  abs = λ path. ok path;
  range = λ t. aws ∷ [];
}

directory_loads : load_plugins plugins [] ≡ returned ((codes "aws", aws) ∷ [])
unfolding load_plugins load_paths load_path load_directory load_files load_plugin merge bytes_eq
    lookup insert
directory_loads = refl

-- A provider that is there already, of another type.
abbrev gcp : NodeProviders
gcp = (codes "gcp", record { type = codes "gcp"; reap = λ calls node. none }) ∷ []

both_there :
    (load_paths plugins (codes "plugins" ∷ []) gcp ≡ returned (gcp ++ (codes "aws", aws) ∷ []))
unfolding load_paths load_path load_directory load_files load_plugin merge bytes_eq lookup insert
both_there = refl

load_paths-Keeps_example :
    EnsuresOutcome (Keeps gcp) (load_paths plugins (codes "plugins" ∷ []) gcp)
    × Ensures (Keeps gcp) (load_files plugins (codes "plugins") (codes "aws.so" ∷ []) gcp)
load_paths-Keeps_example =
    load_paths-Keeps plugins (codes "plugins" ∷ []) (codes "plugins") (codes "aws.so" ∷ []) gcp

-- The same directory twice is refused, and a file that is no plugin makes the program panic.
refusals :
    (load_plugins plugins (codes "plugins" ∷ codes "plugins" ∷ [])
      ≡ refused (failure duplicate_plugin (codes "aws")))
    × (load_plugins plugins (codes "plugins" ∷ codes "README" ∷ []) ≡ panicked)
unfolding load_plugins load_paths load_path load_directory load_files load_plugin merge bytes_eq
    lookup insert
refusals = (refl, refl)

readme-IsBroken : IsBroken plugins (codes "README")
unfolding load_plugin bytes_eq
readme-IsBroken = (refl, wrapped loading_plugin missing, refl)

plugins-loaded : load_paths plugins (codes "plugins" ∷ []) [] ≡ returned ((codes "aws", aws) ∷ [])
unfolding load_paths load_path load_directory load_files load_plugin merge bytes_eq lookup insert
plugins-loaded = refl

load_plugins-panics_example :
    load_plugins plugins (codes "plugins" ∷ codes "README" ∷ codes "plugins" ∷ []) ≡ panicked
load_plugins-panics_example =
    load_plugins-panics plugins (codes "plugins" ∷ []) (codes "README") (codes "plugins" ∷ [])
      ((codes "aws", aws) ∷ []) plugins-loaded readme-IsBroken

-- The configuration file is empty, which leaves the default as it is.
abbrev files : Files
files = record {
  read_file = λ path. if bytes_eq path (codes "/node-reaper.yaml") then ok [] else err missing;
  unmarshal_strict = λ text cfg. ok cfg;
}

abbrev env : Env
env = record {
  version = codes "1.0";
  git_commit = codes "abc";
  config_env = codes "other.yaml";
  kube_config_env = [];
  abs_path = λ path. b'/' ∷ path;
}

-- A client of the cluster that the program runs in, by its address.
abbrev kubernetes : Kubernetes Bytes Bytes
kubernetes = record {
  build_config = λ path. err missing;
  in_cluster_config = ok (codes "10.0.0.1");
  new_for_config = λ rest. ok rest;
}

-- Every logger is built, and counters are told apart by their full names.
abbrev services : Services ZapConfig CounterOpts
services = record { build = λ cfg. ok cfg; prometheus = by_name; patterns = codes "/debug" ∷ [] }

abbrev logger : Zap ZapConfig
logger = record {
  logger = some (opinionated info);
  cfg = some (opinionated info);
  prepend_string = same_string;
  prepend_slice = same_slice;
}

abbrev with_aws : Started ZapConfig CounterOpts Bytes
with_aws = record {
  logger = logger;
  metrics = made by_name (codes "/metrics");
  cfg = config_of default_config;
  client = codes "10.0.0.1";
  providers = (codes "aws", aws) ∷ [];
}

starts : run plugins files kubernetes services env default_flags ≡ returned (started with_aws)
unfolding run log_level load_config resolve_config_chain create_kubernetes_clients load file_eq
    parse limit_type load_plugins load_paths load_path load_directory load_files load_plugin merge
    bytes_eq lookup insert new new_prometheus_metrics
starts = refl

-- A start with a path that does not exist: there are no providers, and reaping is skipped.
abbrev no_paths : Plugins Bytes
no_paths = record plugins { is_dir = λ path. err missing }

abbrev with_none : Started ZapConfig CounterOpts Bytes
with_none = record with_aws { cfg = with_plugins [] (config_of default_config); providers = [] }

starts_without :
    run no_paths files kubernetes services env default_flags ≡ returned (started with_none)
unfolding run log_level load_config resolve_config_chain create_kubernetes_clients load file_eq
    parse limit_type load_plugins load_paths load_path bytes_eq new new_prometheus_metrics
starts_without = refl

abbrev around : Surroundings Expr (ℕ × ℕ)
around = record {
  list_nodes = λ calls. ok (healthy ∷ cordoned ∷ []);
  drain_node_fn = reaper.drain_node_fn;
  since = reaper.since;
  govaluate = reaper.govaluate;
  float64 = reaper.float64;
}

run-without_providers_example :
    (reaps
        (new_controller with_none.cfg around with_none.providers prom_metrics
          (added healthy ∷ [])
          fresh).calls
      ≡ reaps fresh.calls)
    × ((new_controller with_none.cfg around with_none.providers prom_metrics
          (added healthy ∷ [])
          fresh).metrics.reap_total
        ≡ fresh.metrics.reap_total)
    × ((new_controller with_none.cfg around with_none.providers prom_metrics
          (added healthy ∷ [])
          fresh).metrics.reap_fail
        ≡ fresh.metrics.reap_fail)
run-without_providers_example =
    run-without_providers no_paths files kubernetes services env default_flags around with_none
      (added healthy ∷ []) fresh starts_without refl

-- A second start of the metrics in one process panics, since the path is taken.
taken :
    run plugins files kubernetes
      (record services { patterns = codes "/metrics" ∷ [] })
      env
      default_flags
    ≡ panicked
unfolding run log_level load_config resolve_config_chain create_kubernetes_clients load file_eq
    parse limit_type load_plugins load_paths load_path load_directory load_files load_plugin merge
    bytes_eq lookup insert new new_prometheus_metrics
taken = refl

loaded_default : load_config env files default_flags ≡ ok (config_of default_config)
unfolding load_config resolve_config_chain load file_eq parse limit_type bytes_eq
loaded_default = refl

run-dry_example :
    (reaps
        (new_controller with_aws.cfg around with_aws.providers prom_metrics
          (added healthy ∷ deleted healthy.name ∷ [])
          fresh).calls
      ≡ reaps fresh.calls)
    × (drains
          (new_controller with_aws.cfg around with_aws.providers prom_metrics
            (added healthy ∷ deleted healthy.name ∷ [])
            fresh).calls
        ≡ drains fresh.calls)
run-dry_example =
    run-dry plugins files kubernetes services env default_flags around with_aws
      (config_of default_config) (added healthy ∷ deleted healthy.name ∷ []) fresh starts
      loaded_default refl

-- Each flag adds its paths to those of the flags before it.
flags_add_up : set_plugins (codes "b,c") (codes "a" ∷ []) ≡ codes "a" ∷ codes "b" ∷ codes "c" ∷ []
unfolding set_plugins bytes_eq
flags_add_up = refl

-- What a repeated flag and the version print.
printed :
    (plugins_string (set_plugins (codes "a,b") (codes "c" ∷ [])) ≡ codes "[c a b]")
    × (print_version (codes "1.0") (codes "abc") ≡ codes "NodeReaper v1.0 -- abc" ++ b'\n' ∷ [])
unfolding set_plugins split
printed = (refl, refl)
