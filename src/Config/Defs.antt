-- ===== src/Config/Defs.antt =====
-- `File`, `Config` and `defaultConfig` of pkg/config/config.go. The logger that a `Config` holds is
-- left out, with what is written to it.
use node_reaper.Base.{ℕ, Bool, true, false, ◌&&◌, [], ◌∷◌, ◌++◌, Bytes, codes, bytes_eq, ◌==◌}
use node_reaper.Base.Int.{ℤ, pos}

pub record File : Type 0 where
  pub reap_predicate : Bytes
  pub unhealthy_predicate : Bytes
  pub max_nodes_unhealthy : Bytes
  pub max_nodes_unhealthy_in_same_zone : Bytes
  pub new_node_grace_period_seconds : ℕ
  pub drain_timeout_seconds : ℕ
  pub drain_force_retry_on_error : Bool
  pub pod_deletion_grace_period_seconds : ℕ
  pub use_eviction : Bool
  pub skip_reaping : Bool
  pub dry_run : Bool

pub record Config : Type 0 where
  pub reap_predicate : Bytes
  pub unhealthy_predicate : Bytes
  pub max_nodes_unhealthy : Bytes
  pub max_nodes_unhealthy_in_same_zone : Bytes
  pub new_node_grace_period : ℤ
  pub drain_timeout : ℤ
  pub drain_force_retry_on_error : Bool
  pub pod_deletion_grace_period : ℤ
  pub use_eviction : Bool
  pub skip_reaping : Bool
  pub dry_run : Bool

-- A line of a raw string literal, behind its line feed and two tabs.
abbrev line : Bytes → Bytes
line s = 10 ∷ 9 ∷ 9 ∷ s

abbrev pub default_config : File
default_config = record {
  reap_predicate =
      line (codes "Cordoned                       == false")
      ++ line (codes "&& [Labels.kubernetes.io/role] != 'master'")
      ++ line (codes "&& [Conditions.Ready]          != 'True'");
  unhealthy_predicate =
      line (codes "Cordoned                       == true")
      ++ line (codes "|| [Conditions.OutOfDisk]      != 'False'")
      ++ line (codes "|| [Conditions.MemoryPressure] != 'False'")
      ++ line (codes "|| [Conditions.DiskPressure]   != 'False'")
      ++ line (codes "|| [Conditions.Ready]          != 'True'");
  max_nodes_unhealthy = codes "1";
  max_nodes_unhealthy_in_same_zone = codes "1";
  new_node_grace_period_seconds = 300;
  drain_timeout_seconds = 310;
  drain_force_retry_on_error = true;
  pod_deletion_grace_period_seconds = 300;
  use_eviction = true;
  skip_reaping = false;
  dry_run = true;
}

-- `File{}`
abbrev pub zeroed_file : File
zeroed_file = record {
  reap_predicate = [];
  unhealthy_predicate = [];
  max_nodes_unhealthy = [];
  max_nodes_unhealthy_in_same_zone = [];
  new_node_grace_period_seconds = 0;
  drain_timeout_seconds = 0;
  drain_force_retry_on_error = false;
  pod_deletion_grace_period_seconds = 0;
  use_eviction = false;
  skip_reaping = false;
  dry_run = false;
}

-- `Config{}`
abbrev pub zeroed_config : Config
zeroed_config = record {
  reap_predicate = [];
  unhealthy_predicate = [];
  max_nodes_unhealthy = [];
  max_nodes_unhealthy_in_same_zone = [];
  new_node_grace_period = pos 0;
  drain_timeout = pos 0;
  drain_force_retry_on_error = false;
  pod_deletion_grace_period = pos 0;
  use_eviction = false;
  skip_reaping = false;
  dry_run = false;
}

abbrev bool_eq : Bool → Bool → Bool
bool_eq true b = b
bool_eq false true = false
bool_eq false false = true

-- `==` on two values of type `File`.
unfoldable pub file_eq : File → File → Bool
file_eq f g =
    bytes_eq f.reap_predicate g.reap_predicate
    && bytes_eq f.unhealthy_predicate g.unhealthy_predicate
    && bytes_eq f.max_nodes_unhealthy g.max_nodes_unhealthy
    && bytes_eq f.max_nodes_unhealthy_in_same_zone g.max_nodes_unhealthy_in_same_zone
    && f.new_node_grace_period_seconds == g.new_node_grace_period_seconds
    && f.drain_timeout_seconds == g.drain_timeout_seconds
    && bool_eq f.drain_force_retry_on_error g.drain_force_retry_on_error
    && f.pod_deletion_grace_period_seconds == g.pod_deletion_grace_period_seconds
    && bool_eq f.use_eviction g.use_eviction
    && bool_eq f.skip_reaping g.skip_reaping
    && bool_eq f.dry_run g.dry_run
