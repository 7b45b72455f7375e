-- ===== src/Log/Zap.antt =====
-- pkg/log/zap.go: loggers over zap, whose calls are recorded. What zap does with a message, and whether
-- a configuration can be built, is outside.
pub mod Use
pub mod Unset
use node_reaper.Base.{
  ◌==◌, if◌then◌else◌, Bool, false, Option, none, some, List, [], ◌∷◌, Bytes, codes, Result, ok,
  err, ℕ,
}
use node_reaper.Log.{debug}
use node_reaper.Log.Logger.{
  Message, log_debug, log_debugf, log_info, log_infof, log_warn, log_warnf, log_warningf, log_error,
  log_errorf, Logger,
}
use node_reaper.Log.Buffer.{Field, prepend_steps, run_steps}

-- `zapcore.Level`, as far as it is used
pub data ZapLevel : Type 0 where
  info_level debug_level : ZapLevel

-- `ZapLevelMapping[level]`; a level that is missing gives the zero value, which is `InfoLevel`.
unfoldable pub zap_level_mapping : ℕ → ZapLevel
zap_level_mapping level = if level == debug then debug_level else info_level

-- The encoders that are chosen.
pub data Encoder : Type 0 where
  capital_level iso8601_time string_duration : Encoder

-- `zap.Config` with the `zapcore.EncoderConfig` in it, the fields that are set
pub record ZapConfig : Type 0 where
  pub level : ZapLevel
  pub development : Bool
  pub sampling_initial : ℕ
  pub sampling_thereafter : ℕ
  pub encoding : Bytes
  pub time_key : Bytes
  pub level_key : Bytes
  pub name_key : Bytes
  pub message_key : Bytes
  pub line_ending : Bytes
  pub encode_level : Encoder
  pub encode_time : Encoder
  pub encode_duration : Encoder
  pub output_paths : List Bytes
  pub error_output_paths : List Bytes

abbrev pub opinionated : ℕ → ZapConfig
opinionated level = record {
  level = zap_level_mapping level;
  development = false;
  sampling_initial = 100;
  sampling_thereafter = 100;
  encoding = codes "console";
  time_key = codes "T";
  level_key = codes "L";
  name_key = codes "N";
  message_key = codes "M";
  line_ending = 10 ∷ [];
  encode_level = capital_level;
  encode_time = iso8601_time;
  encode_duration = string_duration;
  output_paths = codes "stdout" ∷ [];
  error_output_paths = codes "stderr" ∷ [];
}

-- The function in `prependString`, which may be nil.
pub data PrependString : Type 0 where
  no_string : PrependString
  same_string : PrependString
  with_prefix : List Field → Bytes → Bytes → PrependString

-- That in `prependSlice`; the last one calls the function given.
pub data PrependSlice : Type 0 where
  no_slice : PrependSlice
  same_slice : PrependSlice
  with_first : PrependString → PrependSlice

-- The logger of zap is nil in `Zap{}`.
pub record Zap (Core : Type 0) : Type 0 where
  pub logger : Option Core
  pub cfg : Option ZapConfig
  pub prepend_string : PrependString
  pub prepend_slice : PrependSlice

-- `Zap{}`
abbrev pub zero_zap : {Core : Type 0} → Zap Core
zero_zap = record {
  logger = none;
  cfg = none;
  prepend_string = no_string;
  prepend_slice = no_slice;
}

-- The methods of zap that are called.
pub data Severity : Type 0 where
  at_debug at_info at_warn at_error : Severity

-- `zap.SugaredLogger` at a severity, with arguments, or with a template and its arguments.
pub data Entry (Core Arg : Type 0) : Type 0 where
  printed : Core → Severity → List Arg → Entry Core Arg
  formatted : Core → Severity → Bytes → List Arg → Entry Core Arg

-- The buffer that is shared, and the calls of zap, the latest first.
pub record Logs (Core Arg : Type 0) : Type 0 where
  pub buffer : Bytes
  pub entries : List (Entry Core Arg)

-- `Zap.New`, which ignores the error of `Build`; `none` is the panic of `Sugar` on nil
unfoldable pub new :
    {Core : Type 0} → (ZapConfig → Result Core) → Zap Core → ℕ → Option (Result (Zap Core))
new build z level = elim (build (opinionated level)) [
  | err e ↦ none
  | ok core ↦ some (
      ok (record {
        logger = some core;
        cfg = some (opinionated level);
        prepend_string = same_string;
        prepend_slice = same_slice;
      }))
]

-- `Zap.NewWithConfig`
unfoldable pub new_with_config :
    {Core : Type 0} → (ZapConfig → Result Core) → Zap Core → ZapConfig → Result (Zap Core)
new_with_config build z cfg = elim (build cfg) [
  | err e ↦ err e
  | ok core ↦ ok (record z { logger = some core; cfg = some cfg })
]

-- `Zap.WithFields`
unfoldable pub with_fields : {Core : Type 0} → Zap Core → List Field → Bytes → Bytes → Zap Core
with_fields z fields prefix suffix = record z {
  prepend_string = with_prefix fields prefix suffix;
  prepend_slice = with_first (with_prefix fields prefix suffix);
}

-- The call of `prependString`, which gives a text and leaves the buffer; `none` is the panic of a call of
-- nil.
unfoldable pub call_string : PrependString → Bytes → Bytes → Option (Bytes × Bytes)
call_string no_string s buffer = none
call_string same_string s buffer = some (s, buffer)
call_string (with_prefix [] prefix suffix) s buffer = some ([], buffer)
call_string (with_prefix (f ∷ fields) prefix suffix) s buffer =
    let buffer' = run_steps (prepend_steps (f ∷ fields) prefix suffix s) buffer in
    some (buffer', buffer')

-- That of `prependSlice`.
unfoldable pub call_slice :
    {Arg : Type 0} → (Bytes → Arg) → PrependSlice → List Arg → Bytes → Option (List Arg × Bytes)
unfolding call_string
call_slice of_string no_slice args buffer = none
call_slice of_string same_slice args buffer = some (args, buffer)
call_slice of_string (with_first f) args buffer = elim (call_string f [] buffer) [
  | none ↦ none
  | some (s, buffer') ↦ some (of_string s ∷ args, buffer')
]

module _ {Core Arg : Type 0} (of_string : Bytes → Arg) where
  -- A method that hands its arguments to zap; `none` is a panic.
  unfoldable pub print : Severity → Zap Core → List Arg → Logs Core Arg → Option (Logs Core Arg)
  unfolding call_slice
  print severity z args logs = elim (call_slice of_string z.prepend_slice args logs.buffer) [
    | none ↦ none
    | some (args', buffer) ↦ elim z.logger [
      | none ↦ none
      | some core ↦
          some (record { buffer = buffer; entries = printed core severity args' ∷ logs.entries })
    ]
  ]

  -- One that hands a template and its arguments.
  unfoldable pub print_format :
      Severity → Zap Core → Bytes → List Arg → Logs Core Arg → Option (Logs Core Arg)
  unfolding call_string
  print_format severity z template args logs =
      elim (call_string z.prepend_string template logs.buffer) [
        | none ↦ none
        | some (template', buffer) ↦ elim z.logger [
          | none ↦ none
          | some core ↦ some (record {
            buffer = buffer;
            entries = formatted core severity template' args ∷ logs.entries;
          })
        ]
      ]

  -- The nine methods of `*Zap`.
  unfoldable pub log : Zap Core → Message Arg → Logs Core Arg → Option (Logs Core Arg)
  unfolding print print_format
  log z (log_debug args) = print at_debug z args
  log z (log_debugf template args) = print_format at_debug z template args
  log z (log_info args) = print at_info z args
  log z (log_infof template args) = print_format at_info z template args
  log z (log_warn args) = print at_warn z args
  log z (log_warnf template args) = print_format at_warn z template args
  log z (log_warningf template args) = print_format at_warn z template args
  log z (log_error args) = print at_error z args
  log z (log_errorf template args) = print_format at_error z template args

-- `Zap` as a `Logger`.
abbrev pub zap_logger :
    {Core Arg : Type 0}
    → (ZapConfig → Result Core)
    → (Bytes → Arg)
    → Logger (Zap Core) (Logs Core Arg) Arg
zap_logger build of_string = record {
  new = new build;
  with_fields = with_fields;
  log = log of_string;
}
