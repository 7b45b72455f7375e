-- ===== src/Log/Zap/Use.antt =====
-- What loggers over zap write, and when they panic.
use node_reaper.Base.{
  ℕ, ◌≡◌, refl, Option, none, some, List, [], ◌∷◌, ◌++◌, arith, Bytes, Result, ok, Result-cases,
  inl, inr,
}
use node_reaper.Log.Buffer.{Field, prepended, run_steps-prepend_steps}
use node_reaper.Log.Logger.{
  Message, log_debug, log_debugf, log_info, log_infof, log_warn, log_warnf, log_warningf, log_error,
  log_errorf, Use, derive, write, uses,
}
use node_reaper.Log.Zap.{
  ZapConfig, opinionated, PrependString, same_string, with_prefix, PrependSlice, same_slice,
  with_first, Zap, Severity, at_debug, at_info, at_warn, at_error, Entry, printed, formatted, Logs,
  new, with_fields, call_string, call_slice, print, print_format, log, zap_logger,
}

-- What comes before a message.
abbrev pub Prefix : Type 0
Prefix = Option (List Field × Bytes × Bytes)

-- Without fields the text of a message is lost.
abbrev pub with_text : Prefix → Bytes → Bytes
with_text none s = s
with_text (some ([], prefix, suffix)) s = []
with_text (some (f ∷ fields, prefix, suffix)) s = prepended (f ∷ fields) prefix suffix ++ s

abbrev pub with_args : {Arg : Type 0} → (Bytes → Arg) → Prefix → List Arg → List Arg
with_args of_string none args = args
with_args of_string (some x) args = of_string (with_text (some x) []) ∷ args

-- The call of zap that a message comes to.
abbrev pub entry :
    {Core Arg : Type 0} → (Bytes → Arg) → Core → Prefix → Message Arg → Entry Core Arg
entry of_string core x (log_debug args) = printed core at_debug (with_args of_string x args)
entry of_string core x (log_info args) = printed core at_info (with_args of_string x args)
entry of_string core x (log_warn args) = printed core at_warn (with_args of_string x args)
entry of_string core x (log_error args) = printed core at_error (with_args of_string x args)
entry of_string core x (log_debugf t args) = formatted core at_debug (with_text x t) args
entry of_string core x (log_infof t args) = formatted core at_info (with_text x t) args
entry of_string core x (log_warnf t args) = formatted core at_warn (with_text x t) args
entry of_string core x (log_warningf t args) = formatted core at_warn (with_text x t) args
entry of_string core x (log_errorf t args) = formatted core at_error (with_text x t) args

-- The calls of zap for what is done with a logger, the latest first.
abbrev pub entries_of :
    {Core Arg : Type 0}
    → (Bytes → Arg)
    → Core
    → Prefix
    → List (Use Arg)
    → List (Entry Core Arg)
    → List (Entry Core Arg)
entries_of of_string core x [] before = before
entries_of of_string core x (derive fields prefix suffix ∷ us) before =
    entries_of of_string core (some (fields, prefix, suffix)) us before
entries_of of_string core x (write m ∷ us) before =
    entries_of of_string core x us (entry of_string core x m ∷ before)

-- The functions of a logger put this before a message.
abbrev strings : Prefix → PrependString
strings none = same_string
strings (some (fields, prefix, suffix)) = with_prefix fields prefix suffix

abbrev slices : Prefix → PrependSlice
slices none = same_slice
slices (some (fields, prefix, suffix)) = with_first (with_prefix fields prefix suffix)

abbrev Puts : {Core : Type 0} → Zap Core → Core → Prefix → Type 0
Puts z core x =
    (z.logger ≡ some core) × (z.prepend_string ≡ strings x) × (z.prepend_slice ≡ slices x)

call_string_lem :
    (x : Prefix) (s buffer : Bytes)
    → (b : Bytes) × (call_string (strings x) s buffer ≡ some (with_text x s, b))
unfolding call_string
call_string_lem none s buffer = (buffer, refl)
call_string_lem (some ([], prefix, suffix)) s buffer = (buffer, refl)
call_string_lem (some (f ∷ fields, prefix, suffix)) s buffer =
    let after = run_steps-prepend_steps (f ∷ fields) prefix suffix s buffer in
    (prepended (f ∷ fields) prefix suffix ++ s, rw after refl)

module _ {Core Arg : Type 0} (of_string : Bytes → Arg) (core : Core) where
  call_slice_lem :
      (x : Prefix) (args : List Arg) (buffer : Bytes)
      → (b : Bytes) × (call_slice of_string (slices x) args buffer
          ≡ some (with_args of_string x args, b))
  unfolding call_slice
  call_slice_lem none args buffer = (buffer, refl)
  call_slice_lem (some (fields, prefix, suffix)) args buffer =
      let (b, called) = call_string_lem (some (fields, prefix, suffix)) [] buffer in
      (b, rw (call_slice, called) refl)

  -- The call writes one entry.
  abbrev Writes : Entry Core Arg → Logs Core Arg → Option (Logs Core Arg) → Type 0
  Writes e logs r = (b : Bytes) × (r ≡ some (record { buffer = b; entries = e ∷ logs.entries }))

  print_lem :
      (severity : Severity) (z : Zap Core) (x : Prefix) (args : List Arg) (logs : Logs Core Arg)
      → Puts z core x
      → Writes
          (printed core severity (with_args of_string x args))
          logs
          (print of_string severity z args logs)
  unfolding print
  print_lem severity z x args logs (logger, string, slice) =
      let (b, called) = call_slice_lem x args logs.buffer in
      (b, rw (print, slice, called, logger) refl)

  print_format_lem :
      (severity : Severity) (z : Zap Core) (x : Prefix) (t : Bytes) (args : List Arg)
      (logs : Logs Core Arg)
      → Puts z core x
      → Writes
          (formatted core severity (with_text x t) args)
          logs
          (print_format of_string severity z t args logs)
  unfolding print_format
  print_format_lem severity z x t args logs (logger, string, slice) =
      let (b, called) = call_string_lem x t logs.buffer in
      (b, rw (print_format, string, called, logger) refl)

  log_lem :
      (z : Zap Core) (x : Prefix) (m : Message Arg) (logs : Logs Core Arg)
      → Puts z core x
      → Writes (entry of_string core x m) logs (log of_string z m logs)
  unfolding log
  log_lem z x (log_debug args) logs puts = print_lem at_debug z x args logs puts
  log_lem z x (log_info args) logs puts = print_lem at_info z x args logs puts
  log_lem z x (log_warn args) logs puts = print_lem at_warn z x args logs puts
  log_lem z x (log_error args) logs puts = print_lem at_error z x args logs puts
  log_lem z x (log_debugf t args) logs puts = print_format_lem at_debug z x t args logs puts
  log_lem z x (log_infof t args) logs puts = print_format_lem at_info z x t args logs puts
  log_lem z x (log_warnf t args) logs puts = print_format_lem at_warn z x t args logs puts
  log_lem z x (log_warningf t args) logs puts = print_format_lem at_warn z x t args logs puts
  log_lem z x (log_errorf t args) logs puts = print_format_lem at_error z x t args logs puts

module _ {Core Arg : Type 0} (build : ZapConfig → Result Core) (of_string : Bytes → Arg) where
  uses-Puts :
      (z : Zap Core) (core : Core) (x : Prefix) (us : List (Use Arg)) (logs : Logs Core Arg)
      → Puts z core x
      → (b : Bytes) × (uses (zap_logger build of_string) z us logs
          ≡ some (record { buffer = b; entries = entries_of of_string core x us logs.entries }))
  unfolding uses with_fields
  uses-Puts z core x [] logs puts = (logs.buffer, refl)
  uses-Puts z core x (derive fields prefix suffix ∷ us) logs puts =
      uses-Puts (with_fields z fields prefix suffix) core (some (fields, prefix, suffix)) us logs
        (puts.0, refl, refl)
  uses-Puts z core x (write m ∷ us) logs puts =
      let (b, wrote) = log_lem of_string core z x m logs puts in
      let logs' : Logs Core Arg = record {
        buffer = b;
        entries = entry of_string core x m ∷ logs.entries;
      } in
      let (b', rest) = uses-Puts z core x us logs' puts in (b', rw (uses, wrote) rest)

  -- A logger made by `New` never panics, however fields are added and messages are logged: each message
  -- comes to one call of zap with its arguments, behind the fields that were given last, and those alone;
  -- where these were none, the template of the message is lost.
  pub uses-new :
      (z z' : Zap Core) (level : ℕ) (us : List (Use Arg)) (logs : Logs Core Arg)
      → new build z level ≡ some (ok z')
      → (core : Core) × (build (opinionated level) ≡ ok core)
        × (b : Bytes) × (uses (zap_logger build of_string) z' us logs
            ≡ some
                (record { buffer = b; entries = entries_of of_string core none us logs.entries }))
  unfolding new
  uses-new z z' level us logs made = elim (Result-cases (build (opinionated level))) [
    | inl (core, built) ↦
        let (b, wrote) =
          uses-Puts z' core none us logs (ground arith, ground arith, ground arith) in
        (core, built, b, wrote)
    | inr (e, failed) ↦ ground arith
  ]
