-- ===== src/Examples/Limits.antt =====
-- pkg/config/config.go and pkg/nodereaper/cluster_health_calculator.go at concrete inputs, those of the
-- repository's own tests among them.
use node_reaper.Base.{
  some, none, All, bytes_eq, ◌*◌, ◌≤◌, ◌≡◌, refl, ◌≢◌, true, false, ◌↔◌, [], ◌∷◌, ◌++◌, arith,
  Bytes, codes, ok,
}
use node_reaper.Base.Int.{pos, ltb_ℤ}
use node_reaper.Config.Limit.{type_string, absolute, percentual, limit_type, limit_uint}
use node_reaper.Config.Limit.Digits.{IsDigit, value}
use node_reaper.Config.Limit.Accepts.{limit_type_iff, IsPercentage}
use node_reaper.Config.Duration.{seconds, seconds-overflow}
use node_reaper.Config.Defs.{default_config, zeroed_file, file_eq}
use node_reaper.Config.Load.{Files, IsLoaded, load, load-ok_iff}
use node_reaper.Config.Parse.{parse}
use node_reaper.Config.Parse.Outcome.{config_of, judged, parse_lem}
use node_reaper.Health.{
  ClusterHealthCalculator, unhealthy_percent, percentual_health, new_calculator,
}
use node_reaper.Health.Float.{fractions, fractions-IsIeee}
use node_reaper.Health.Limits.{new_calculator-percentual}

-- 2 ^ 64, which has twenty digits.
abbrev too_large : Bytes
too_large = codes "18446744073709551616"

types :
    (limit_type (codes "12") ≡ ok absolute)
    × (limit_type (codes "100%") ≡ ok percentual)
    × (limit_type too_large ≡ ok absolute)
    × (limit_uint (codes "14%") ≡ ok 14)
unfolding limit_type
types = (refl, refl, refl, refl)

limit_type_iff_example :
    ((limit_type (codes "100%") ≡ ok absolute) ↔ ((codes "100%" ≢ []) × All IsDigit (codes "100%")))
    × ((limit_type (codes "100%") ≡ ok percentual)
        ↔ ((d : Bytes) × IsPercentage (codes "100%") d × (value 0 d ≤ 100)))
limit_type_iff_example = limit_type_iff (codes "100%")

seconds-overflow_example : ltb_ℤ (seconds 9223372037) (pos 0) ≡ true
seconds-overflow_example = seconds-overflow 9223372037 (omega arith) (omega arith)

default_parses : parse default_config ≡ ok (config_of default_config)
unfolding parse limit_type
default_parses = refl

parse_lem_example :
    parse default_config ≡ judged (limit_type (codes "1")) (limit_type (codes "1")) default_config
parse_lem_example = parse_lem default_config

-- A file whose values are all zero.
abbrev zero_files : Files
zero_files = record { read_file = λ path. ok path; unmarshal_strict = λ text f. ok zeroed_file }

load_zero : load zero_files (codes "x") ≡ ok default_config
unfolding load file_eq bytes_eq
load_zero = refl

load-ok_iff_example :
    (load zero_files (codes "x") ≡ ok default_config)
    ↔ IsLoaded zero_files (codes "x") default_config
load-ok_iff_example = load-ok_iff zero_files (codes "x") default_config

-- `TestPercentualClusterHealthCalculator`
percent_tests :
    (percentual_health fractions 14 10 73 ≡ true)
    × (percentual_health fractions 13 10 73 ≡ false)
    × (percentual_health fractions 23 7 31 ≡ true)
    × (percentual_health fractions 22 7 31 ≡ false)
unfolding percentual_health unhealthy_percent
percent_tests = (refl, refl, refl, refl)

new_calculator-percentual_example :
    (c : ClusterHealthCalculator) × (d : Bytes) × (new_calculator fractions (codes "100%") ≡ ok c)
    × (codes "100%" ≡ d ++ b'%' ∷ [])
    × (value 0 d ≤ 100)
    × ((c 10 73 ≡ true) ↔ (10 * 100 ≤ value 0 d * 73))
new_calculator-percentual_example =
    new_calculator-percentual fractions (codes "100%") 10 73 types.1 fractions-IsIeee (omega arith)
      (omega arith) (omega arith)

-- The names are off by one.
type_strings : (type_string absolute ≡ some (codes "PERCENTUAL")) × (type_string percentual ≡ none)
type_strings = (refl, refl)
