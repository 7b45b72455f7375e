-- ===== src/Config/Print.antt =====
-- `Config.Log` of pkg/config/config.go.
use node_reaper.Base.{
  ℕ, suc, ◌≤◌, ◌≡◌, refl, sym, ap, Bool, true, false, List, [], ◌∷◌, ◌++◌, arith, Bytes, codes, ok,
  some, get_elem?,
}
use node_reaper.Base.Int.{ℤ, pos, negsuc}
use node_reaper.Config.Defs.{Config}
use node_reaper.Config.Duration.{seconds, whole_seconds, max_seconds, whole_seconds-seconds}
use node_reaper.Config.Limit.{parse_uint}
use node_reaper.Config.Decimal.{decimal, decimal-parse, decimal-injective, unsigned}
use node_reaper.Log.Buffer.{pad}
use node_reaper.Log.Logger.{Message, log_infof}

-- `%d` for an integer, and `%t`
abbrev pub print_ℤ : ℤ → Bytes
print_ℤ (pos n) = decimal n
print_ℤ (negsuc n) = b'-' ∷ decimal (suc n)

abbrev pub print_bool : Bool → Bytes
print_bool true = codes "true"
print_bool false = codes "false"

-- A duration in the log
abbrev pub print_seconds : ℤ → Bytes
print_seconds d = print_ℤ (whole_seconds d)

-- A line: the name in 45 columns, and the value.
abbrev pub property : {Arg : Type 0} → Bytes → Bytes → Message Arg
property name shown = log_infof (pad (record { field = name; width = 45 }) ++ b' ' ∷ shown) []

-- `Config.Log`, by what it calls of the logger.
abbrev pub log_config : {Arg : Type 0} → Config → List (Message Arg)
log_config c =
    property (codes "ReapPredicate set to:") c.reap_predicate
    ∷ property (codes "UnhealthyPredicate set to:") c.unhealthy_predicate
    ∷ property (codes "MaxNodesUnhealthy set to:") c.max_nodes_unhealthy
    ∷ property (codes "MaxNodesUnhealthyInSameZone set to:") c.max_nodes_unhealthy_in_same_zone
    ∷ property (codes "NewNodeGracePeriod set to:") (print_seconds c.new_node_grace_period)
    ∷ property (codes "DrainTimeout set to:") (print_seconds c.drain_timeout)
    ∷ property (codes "DrainForceRetryOnError set to:") (print_bool c.drain_force_retry_on_error)
    ∷ property (codes "PodDeletionGracePeriod set to:") (print_seconds c.pod_deletion_grace_period)
    ∷ property (codes "UseEviction set to:") (print_bool c.use_eviction)
    ∷ property (codes "SkipReaping set to:") (print_bool c.skip_reaping)
    ∷ property (codes "DryRun set to:") (print_bool c.dry_run)
    ∷ []

-- Seconds that fit in int64 nanoseconds are logged as they were configured: what is printed for the
-- duration made of them reads as their number.
pub print_seconds-parse : (s : ℕ) → s ≤ max_seconds → parse_uint (print_seconds (seconds s)) ≡ ok s
print_seconds-parse s fits = rw (whole_seconds-seconds s fits) (decimal-parse s (omega arith))

print_ℤ-injective : (a b : ℤ) → print_ℤ a ≡ print_ℤ b → a ≡ b
print_ℤ-injective (pos n) (pos m) h = ap pos (decimal-injective n m h)
print_ℤ-injective (pos n) (negsuc m) h = absurd (unsigned n (suc m) h)
print_ℤ-injective (negsuc n) (pos m) h = absurd (unsigned m (suc n) (sym h))
print_ℤ-injective (negsuc n) (negsuc m) h =
    let same : decimal (suc n) ≡ decimal (suc m) = cc in
    let next = decimal-injective (suc n) (suc m) same in cc

print_bool-injective : (a b : Bool) → print_bool a ≡ print_bool b → a ≡ b
print_bool-injective true true h = refl
print_bool-injective true false h = cc
print_bool-injective false true h = cc
print_bool-injective false false h = refl

append-cancel : (p a b : Bytes) → p ++ a ≡ p ++ b → a ≡ b
append-cancel [] a b h = h
append-cancel (c ∷ p) a b h = let rest : p ++ a ≡ p ++ b = cc in append-cancel p a b rest

property-injective :
    {Arg : Type 0} (name a b : Bytes)
    → some (property {Arg = Arg} name a) ≡ some (property {Arg = Arg} name b)
    → a ≡ b
property-injective name a b h =
    let texts : pad (record { field = name; width = 45 }) ++ b' ' ∷ a
        ≡ pad (record { field = name; width = 45 }) ++ b' ' ∷ b =
      cc in
    let values : b' ' ∷ a ≡ b' ' ∷ b =
      append-cancel (pad (record { field = name; width = 45 })) (b' ' ∷ a) (b' ' ∷ b) texts in
    cc

-- Two configurations have the same properties, but for fractions of seconds.
pub record Agrees (c c' : Config) : Type 0 where
  pub reap_predicate : c.reap_predicate ≡ c'.reap_predicate
  pub unhealthy_predicate : c.unhealthy_predicate ≡ c'.unhealthy_predicate
  pub max_nodes_unhealthy : c.max_nodes_unhealthy ≡ c'.max_nodes_unhealthy
  pub in_same_zone : c.max_nodes_unhealthy_in_same_zone ≡ c'.max_nodes_unhealthy_in_same_zone
  pub grace_period : whole_seconds c.new_node_grace_period ≡ whole_seconds c'.new_node_grace_period
  pub timeout : whole_seconds c.drain_timeout ≡ whole_seconds c'.drain_timeout
  pub force_retry : c.drain_force_retry_on_error ≡ c'.drain_force_retry_on_error
  pub deletion :
      whole_seconds c.pod_deletion_grace_period ≡ whole_seconds c'.pod_deletion_grace_period
  pub use_eviction : c.use_eviction ≡ c'.use_eviction
  pub skip_reaping : c.skip_reaping ≡ c'.skip_reaping
  pub dry_run : c.dry_run ≡ c'.dry_run

-- The log tells the configuration: if `Log` writes the same lines for two, they have the same properties,
-- but for fractions of seconds.
pub log_config-Agrees :
    {Arg : Type 0} (c c' : Config)
    → log_config {Arg = Arg} c ≡ log_config {Arg = Arg} c'
    → Agrees c c'
log_config-Agrees {Arg} c c' h =
    let nth : (i : ℕ)
        → get_elem? (log_config {Arg = Arg} c) i ≡ get_elem? (log_config {Arg = Arg} c') i =
      λ i. ap (λ (xs : List (Message Arg)). get_elem? xs i) h in
    record {
      reap_predicate = property-injective _ _ _ (nth 0);
      unhealthy_predicate = property-injective _ _ _ (nth 1);
      max_nodes_unhealthy = property-injective _ _ _ (nth 2);
      in_same_zone = property-injective _ _ _ (nth 3);
      grace_period = print_ℤ-injective _ _ (property-injective _ _ _ (nth 4));
      timeout = print_ℤ-injective _ _ (property-injective _ _ _ (nth 5));
      force_retry = print_bool-injective _ _ (property-injective _ _ _ (nth 6));
      deletion = print_ℤ-injective _ _ (property-injective _ _ _ (nth 7));
      use_eviction = print_bool-injective _ _ (property-injective _ _ _ (nth 8));
      skip_reaping = print_bool-injective _ _ (property-injective _ _ _ (nth 9));
      dry_run = print_bool-injective _ _ (property-injective _ _ _ (nth 10));
    }
