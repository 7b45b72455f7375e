-- ===== src/Config/Parse.antt =====
-- `File.Parse` of pkg/config/config.go and the setters that it calls. A setter returns the
-- configuration that it has written to, and its error; the warnings that it logs are left out.
pub mod Outcome
use node_reaper.Base.{
  ℕ, ◌≡◌, Bool, Option, none, some, List, [], ◌∷◌, Bytes, codes, Result, ok, err, Error, ltb,
  if◌then◌else◌,
}
use node_reaper.Config.Limit.{LimitType, limit_type}
use node_reaper.Config.Duration.{seconds}
use node_reaper.Config.Defs.{File, Config, zeroed_config}

abbrev pub Setter : Type 0
Setter = File → Config → Config × Option Error

abbrev pub default_reap_predicate : Bytes
default_reap_predicate =
    codes
      "Cordoned == false && [Labels.kubernetes.io/role] != 'master' && [Conditions.Ready] != 'True'"

abbrev pub or_default : Bytes → Bytes → Bytes
or_default [] d = d
or_default (c ∷ s) d = c ∷ s

abbrev pub set_reap_predicate : Setter
set_reap_predicate cf c =
    (record c { reap_predicate = or_default cf.reap_predicate default_reap_predicate }, none)

abbrev pub set_unhealthy_predicate : Setter
set_unhealthy_predicate cf c = (record c { unhealthy_predicate = cf.unhealthy_predicate }, none)

-- What a setter of a limit does with the answer of `Type`.
abbrev pub check_limit : Result LimitType → Config → Config → Config × Option Error
check_limit (ok _) written old = (written, none)
check_limit (err e) written old = (old, some e)

abbrev pub set_max_nodes_unhealthy : Setter
set_max_nodes_unhealthy cf c =
    check_limit (limit_type cf.max_nodes_unhealthy)
      (record c { max_nodes_unhealthy = cf.max_nodes_unhealthy }) c

abbrev pub set_max_nodes_unhealthy_in_same_zone : Setter
set_max_nodes_unhealthy_in_same_zone cf c =
    check_limit (limit_type cf.max_nodes_unhealthy_in_same_zone)
      (record c { max_nodes_unhealthy_in_same_zone = cf.max_nodes_unhealthy_in_same_zone }) c

abbrev pub set_new_node_grace_period : Setter
set_new_node_grace_period cf c =
    (record c { new_node_grace_period = seconds cf.new_node_grace_period_seconds }, none)

abbrev pub set_drain_timeout : Setter
set_drain_timeout cf c =
    if ltb cf.drain_timeout_seconds 30
    then (record c { drain_timeout = seconds 30 }, none)
    else (record c { drain_timeout = seconds cf.drain_timeout_seconds }, none)

abbrev pub set_drain_force_retry_on_error : Setter
set_drain_force_retry_on_error cf c =
    (record c { drain_force_retry_on_error = cf.drain_force_retry_on_error }, none)

abbrev pub set_pod_deletion_grace_period : Setter
set_pod_deletion_grace_period cf c =
    (record c { pod_deletion_grace_period = seconds cf.pod_deletion_grace_period_seconds }, none)

abbrev pub set_use_eviction : Setter
set_use_eviction cf c = (record c { use_eviction = cf.use_eviction }, none)

abbrev pub set_skip_reaping : Setter
set_skip_reaping cf c = (record c { skip_reaping = cf.skip_reaping }, none)

abbrev pub set_dry_run : Setter
set_dry_run cf c = (record c { dry_run = cf.dry_run }, none)

-- The slice literal: every setter runs, in order, and leaves its error in the slice.
abbrev pub run_setters : List Setter → File → Config → Config × List (Option Error)
run_setters [] cf c = (c, [])
run_setters (set ∷ sets) cf c =
    let (c', e) = set cf c in let (c'', es) = run_setters sets cf c' in (c'', e ∷ es)

-- The loop over the slice.
abbrev pub first_error : List (Option Error) → Config → Result Config
first_error [] c = ok c
first_error (none ∷ es) c = first_error es c
first_error (some e ∷ es) c = err e

unfoldable pub parse : File → Result Config
parse cf =
    let (c, es) =
      run_setters
        (set_reap_predicate ∷ set_unhealthy_predicate ∷ set_max_nodes_unhealthy
          ∷ set_max_nodes_unhealthy_in_same_zone ∷ set_new_node_grace_period ∷ set_drain_timeout
          ∷ set_drain_force_retry_on_error ∷ set_pod_deletion_grace_period ∷ set_use_eviction
          ∷ set_skip_reaping ∷ set_dry_run ∷ [])
        cf zeroed_config in
    first_error es c
