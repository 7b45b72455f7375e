-- ===== src/Examples/Labelling.antt =====
-- The default predicate on labels without an order, and the log of a configuration.
use node_reaper.Base.{◌≡◌, refl, ap, Bool, ◌&&◌, ◌||◌, List, [], ◌∷◌, Bytes, arith, Result, ok}
use mathlib.Core.Quot
use node_reaper.Base.Table.{lookup}
use node_reaper.Predicate.{Parameters, boolean, eval}
use node_reaper.Predicate.Formula.{
  Comparison, all_of, any_of, holds, every_holds, some_holds, compiled_as,
}
use node_reaper.Predicate.Labels.{Labels, LabelMap, with_labels, ReadsByKey, eval-LabelMap}
use node_reaper.Reaper.Defaults.{active_config}
use node_reaper.Config.Duration.{seconds, whole_seconds}
use node_reaper.Base.Int.{pos}
use node_reaper.Config.Defs.{Config}
use node_reaper.Config.Limit.{parse_uint}
use node_reaper.Config.Print.{
  print_seconds, print_seconds-parse, log_config, Agrees, log_config-Agrees,
}
use node_reaper.Examples.Defaulting.{formulas, lost, reads_unhealthy}

holds_same :
    (ps qs : Parameters) (c : Comparison)
    → ((k : Bytes) → lookup k ps ≡ lookup k qs)
    → holds ps c ≡ holds qs c
holds_same ps qs c h = rw (h c.variable) refl

every_same :
    (ps qs : Parameters) (cs : List Comparison)
    → ((k : Bytes) → lookup k ps ≡ lookup k qs)
    → every_holds cs ps ≡ every_holds cs qs
every_same ps qs [] h = refl
every_same ps qs (c ∷ cs) h = λ i. holds_same ps qs c h i && every_same ps qs cs h i

some_same :
    (ps qs : Parameters) (cs : List Comparison)
    → ((k : Bytes) → lookup k ps ≡ lookup k qs)
    → some_holds cs ps ≡ some_holds cs qs
some_same ps qs [] h = refl
some_same ps qs (c ∷ cs) h = λ i. holds_same ps qs c h i || some_same ps qs cs h i

formulas-ReadsByKey : ReadsByKey formulas
formulas-ReadsByKey (all_of cs) ps qs h = ap (λ b. ok (boolean b)) (every_same ps qs cs h)
formulas-ReadsByKey (any_of cs) ps qs h = ap (λ b. ok (boolean b)) (some_same ps qs cs h)

eval-LabelMap_example :
    (f : LabelMap → Result Bool) × ((labels : Labels)
      → f (Quot.mk labels) ≡ eval formulas (compiled_as reads_unhealthy) (with_labels lost labels))
eval-LabelMap_example =
    eval-LabelMap formulas formulas-ReadsByKey (compiled_as reads_unhealthy) lost

-- The default configuration, with 300 seconds as the grace period of new nodes.
print_seconds-parse_example : parse_uint (print_seconds (seconds 300)) ≡ ok 300
print_seconds-parse_example = print_seconds-parse 300 (omega arith)

-- Another half second is not seen in the log.
abbrev longer : Config
longer = record active_config { drain_timeout = pos 310500000000 }

same_log : log_config {Arg = Bytes} active_config ≡ log_config longer
unfolding seconds whole_seconds
same_log = refl

log_config-Agrees_example : Agrees active_config longer
log_config-Agrees_example = log_config-Agrees active_config longer same_log
