-- ===== src/Examples/Logging.antt =====
-- Loggers and counters: two messages of goroutines, a chain of loggers, and a registry by full names.
use node_reaper.Base.{
  ◌≡◌, ◌≢◌, refl, Bool, false, ◌||◌, none, some, List, [], ◌∷◌, ◌++◌, map, All, arith, Bytes, codes,
  bytes_eq, bytes_eq_iff, foreign, Result, ok, if◌then◌else◌,
}
use node_reaper.Log.Buffer.{Field, pad, prepend_steps, prepended}
use node_reaper.Log.Overlap.{turns, both, overlapping, overlapping-mixes}
use node_reaper.Log.Logger.{Use, derive, write, log_info, log_infof, uses}
use node_reaper.Log.Zap.{
  ZapConfig, opinionated, Zap, zero_zap, Logs, printed, formatted, at_info, same_string, same_slice,
  new, new_with_config, zap_logger,
}
use node_reaper.Log.Zap.Use.{entries_of, uses-new}
use node_reaper.Metrics.{CounterOpts, Prometheus, IsPrometheus, fq_name}

abbrev field_a : Field
field_a = record { field = codes "node-a"; width = 6 }

abbrev node_a : List Field
node_a = field_a ∷ []

abbrev node_b : List Field
node_b = record { field = codes "node-b"; width = 8 } ∷ []

padded : prepended node_b (codes "[") (codes "] ") ≡ codes "[node-b  ] "
unfolding pad
padded = refl

overlapping-mixes_example :
    let log =
      turns
        (overlapping field_a field_a [] [] []
          (codes "   ")
          []
          (codes "   ")
          (codes "one")
          (codes "two")
          [])
        (both
          (prepend_steps node_a [] (codes "   ") (codes "one"))
          (prepend_steps node_a [] (codes "   ") (codes "two"))
          []) in
    (log.one.text
      ≡ some (
          (prepended node_a [] (codes "   ") ++ codes "two")
          ++ (prepended node_a [] (codes "   ") ++ codes "one")))
    × (log.other.text ≡ some (prepended node_a [] (codes "   ") ++ codes "two"))
overlapping-mixes_example =
    overlapping-mixes field_a field_a [] [] [] (codes "   ") [] (codes "   ") (codes "one")
      (codes "two") []

abbrev core_of : ZapConfig → Result ZapConfig
core_of cfg = ok cfg

abbrev silent : Logs ZapConfig Bytes
silent = record { buffer = codes "old"; entries = [] }

abbrev life : List (Use Bytes)
life =
    write (log_info (codes "start" ∷ []))
    ∷ derive node_b [] (codes " ")
    ∷ derive node_a [] (codes "   ")
    ∷ write (log_infof (codes "draining %d pods") (codes "2" ∷ []))
    ∷ []

abbrev made_zap : Zap ZapConfig
made_zap = record {
  logger = some (opinionated 1);
  cfg = some (opinionated 1);
  prepend_string = same_string;
  prepend_slice = same_slice;
}

zap_made : new core_of zero_zap 1 ≡ some (ok made_zap)
unfolding new
zap_made = refl

-- The fields that were given first are not written.
written :
    entries_of (λ s. s) (opinionated 1) none life []
    ≡ formatted (opinionated 1) at_info (codes "node-a   draining %d pods") (codes "2" ∷ [])
      ∷ printed (opinionated 1) at_info (codes "start" ∷ [])
      ∷ []
unfolding pad
written = refl

uses-new_example :
    (core : ZapConfig) × (core_of (opinionated 1) ≡ ok core)
    × (b : Bytes) × (uses (zap_logger core_of (λ s. s)) made_zap life silent
        ≡ some (record { buffer = b; entries = entries_of (λ s. s) core none life silent.entries }))
uses-new_example = uses-new core_of (λ s. s) zero_zap made_zap 1 life silent zap_made

abbrev configured : Zap ZapConfig
configured = record zero_zap { logger = some (opinionated 2); cfg = some (opinionated 2) }

zap_configured : new_with_config core_of zero_zap (opinionated 2) ≡ ok configured
unfolding new_with_config
zap_configured = refl

-- A registry that compares full names.
abbrev has_name : List CounterOpts → Bytes → Bool
has_name [] name = false
has_name (o ∷ os) name = bytes_eq (fq_name o) name || has_name os name

abbrev pub by_name : Prometheus CounterOpts
by_name = record {
  new_counter = λ o. o;
  register = λ os o. if has_name os (fq_name o) then some (foreign (codes "duplicate")) else none;
}

has_no-name :
    (os : List CounterOpts) (o : CounterOpts)
    → All (λ (x : CounterOpts). fq_name x ≢ fq_name o) os
    → has_name (map (λ (x : CounterOpts). x) os) (fq_name o) ≡ false
has_no-name [] o h = refl
has_no-name (x ∷ os) o h =
    ground (arith, bytes_eq_iff (fq_name x) (fq_name o), h.0, has_no-name os o h.1)

by_name-IsPrometheus : IsPrometheus by_name
by_name-IsPrometheus = record { takes_new = λ os o h. rw (has_no-name os o h) refl }
