-- ===== src/Base/Errors.antt =====
-- Go's `error`, and the pair `(value, error)` as a result. An error is known by the place that made
-- it (`fmt.Errorf`, without its text) and by the error that the place wraps.
use mathlib.Core.Path.{◌≡◌, refl}
use mathlib.Core.Logic.{◌⊎◌, inl, inr}
use mathlib.Core.Option.{Option, none, some}
use node_reaper.Base.Strings.{Bytes}

-- One name for each format string of the program.
pub data Site : Type 0 where
  -- strconv.ParseUint
  invalid_syntax value_out_of_range : Site
  -- pkg/config/config.go
  cannot_parse_limit percentage_above_100 : Site
  -- pkg/nodereaper/evaluable_predicate.go
  not_boolean : Site
  -- pkg/nodereaper/nodereaper.go
  checking_eligibility creating_reap_predicate evaluating_reap_predicate : Site
  getting_nodes evaluating_unhealthy_predicate assessing_health : Site
  counting_unhealthy creating_calculator evaluating_conditions : Site
  zone_label_missing draining force_retry_draining : Site
  reaping getting_provider extracting_provider plugin_not_found reaping_with_provider : Site
  -- pkg/drainer/drain.go
  cordoning getting_group_version getting_pods failed_draining : Site
  attempting waiting_for_pod operating_pod drain_timed_out : Site
  -- pkg/log/log.go
  invalid_log_level : Site
  -- cmd/nodereaper/main.go
  could_not_load could_not_parse loading_directory duplicate_plugin loading_plugin loading_plugins
        not_a_provider loading_kubeconfig loading_in_cluster_config running_listener :
      Site

pub data Error : Type 0 where
  -- made outside the program
  foreign : Bytes → Error
  -- `fmt.Errorf` that wraps no error, with the value that it quotes
  failure : Site → Bytes → Error
  -- `fmt.Errorf` that wraps an error
  wrapped : Site → Error → Error

pub data Result {ℓ} (A : Type ℓ) : Type ℓ where
  ok : A → Result A
  err : Error → Result A

infixl 5 ◌>>=◌
abbrev pub ◌>>=◌ {ℓ κ} : {A : Type ℓ} {B : Type κ} → Result A → (A → Result B) → Result B
ok a >>= f = f a
err e >>= f = err e

-- `if err != nil { return …, fmt.Errorf(site, err) }`
abbrev pub context {ℓ} : {A : Type ℓ} → Site → Result A → Result A
context site (ok a) = ok a
context site (err e) = err (wrapped site e)

-- The same for a function that returns an error alone; `none` is `nil`.
abbrev pub wrap_error : Site → Option Error → Option Error
wrap_error site none = none
wrap_error site (some e) = some (wrapped site e)

pub Result-cases {ℓ} :
    {A : Type ℓ} (r : Result A) → ((a : A) × (r ≡ ok a)) ⊎ ((e : Error) × (r ≡ err e))
Result-cases (ok a) = inl (a, refl)
Result-cases (err e) = inr (e, refl)
