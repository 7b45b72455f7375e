-- ===== src/Config/Parse/Outcome.antt =====
-- What `File.Parse` returns, by the two limits of the file.
use node_reaper.Base.{ℕ, ◌*◌, ◌≤◌, ◌≡◌, arith, Result, ok, err, ltb, if◌then◌else◌}
use node_reaper.Base.Int.{pos, ◌≤ℤ◌}
use node_reaper.Config.Limit.{LimitType, limit_type}
use node_reaper.Config.Duration.{seconds, second, max_seconds, seconds-small}
use node_reaper.Config.Defs.{File, Config}
use node_reaper.Config.Parse.{parse, or_default, default_reap_predicate}

abbrev pub at_least_30 : ℕ → ℕ
at_least_30 s = if ltb s 30 then 30 else s

-- The configuration that a file stands for.
abbrev pub config_of : File → Config
config_of cf = record {
  reap_predicate = or_default cf.reap_predicate default_reap_predicate;
  unhealthy_predicate = cf.unhealthy_predicate;
  max_nodes_unhealthy = cf.max_nodes_unhealthy;
  max_nodes_unhealthy_in_same_zone = cf.max_nodes_unhealthy_in_same_zone;
  new_node_grace_period = seconds cf.new_node_grace_period_seconds;
  drain_timeout = seconds (at_least_30 cf.drain_timeout_seconds);
  drain_force_retry_on_error = cf.drain_force_retry_on_error;
  pod_deletion_grace_period = seconds cf.pod_deletion_grace_period_seconds;
  use_eviction = cf.use_eviction;
  skip_reaping = cf.skip_reaping;
  dry_run = cf.dry_run;
}

-- The answer of `Parse` by those of `Type`: the first refusal, or the configuration of the file.
abbrev pub judged : Result LimitType → Result LimitType → File → Result Config
judged (err e) r cf = err e
judged (ok t) (err e) cf = err e
judged (ok t) (ok u) cf = ok (config_of cf)

-- Parsing refuses a file by the limit for the cluster, then by the limit for a zone, with the error
-- of `Type`, and by nothing else; any other file gives the configuration that it stands for, whole.
pub parse_lem :
    (cf : File)
    → parse cf
      ≡ judged
          (limit_type cf.max_nodes_unhealthy)
          (limit_type cf.max_nodes_unhealthy_in_same_zone)
          cf
unfolding parse
parse_lem cf = ground arith

-- A parsed drain timeout of at most 9223372036 seconds is at least 30 seconds, and no shorter than the
-- file says.
pub parse-drain_timeout :
    (cf : File) (c : Config)
    → cf.drain_timeout_seconds ≤ max_seconds
    → parse cf ≡ ok c
    → (pos (30 * second) ≤ℤ c.drain_timeout)
      × (pos (cf.drain_timeout_seconds * second) ≤ℤ c.drain_timeout)
parse-drain_timeout cf c small h =
    ground (arith, parse_lem cf, seconds-small (at_least_30 cf.drain_timeout_seconds))
