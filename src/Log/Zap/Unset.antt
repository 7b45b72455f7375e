-- ===== src/Log/Zap/Unset.antt =====
-- `NewWithConfig` of pkg/log/zap.go leaves the functions for the fields nil.
use node_reaper.Base.{◌≡◌, refl, none, List, ◌∷◌, arith, Bytes, Result, ok, Result-cases, inl, inr}
use node_reaper.Log.Logger.{
  Message, log_debug, log_debugf, log_info, log_infof, log_warn, log_warnf, log_warningf, log_error,
  log_errorf, Use, write, uses,
}
use node_reaper.Log.Zap.{
  ZapConfig, no_string, no_slice, Zap, zero_zap, Severity, at_debug, at_info, at_warn, at_error,
  Logs, new_with_config, call_string, call_slice, print, print_format, log, zap_logger,
}

module _ {Core Arg : Type 0} (build : ZapConfig → Result Core) (of_string : Bytes → Arg) where
  unset :
      (cfg : ZapConfig) (z : Zap Core)
      → new_with_config build zero_zap cfg ≡ ok z
      → (z.prepend_string ≡ no_string) × (z.prepend_slice ≡ no_slice)
  unfolding new_with_config
  unset cfg z made = elim (Result-cases (build cfg)) [
    | inl (core, built) ↦ (ground arith, ground arith)
    | inr (e, failed) ↦ ground arith
  ]

  print-unset :
      (severity : Severity) (z : Zap Core) (args : List Arg) (logs : Logs Core Arg)
      → z.prepend_slice ≡ no_slice
      → print of_string severity z args logs ≡ none
  unfolding print call_slice
  print-unset severity z args logs slice = rw (print, slice) refl

  print_format-unset :
      (severity : Severity) (z : Zap Core) (t : Bytes) (args : List Arg) (logs : Logs Core Arg)
      → z.prepend_string ≡ no_string
      → print_format of_string severity z t args logs ≡ none
  unfolding print_format call_string
  print_format-unset severity z t args logs string = rw (print_format, string) refl

  log-unset :
      (z : Zap Core) (m : Message Arg) (logs : Logs Core Arg)
      → z.prepend_string ≡ no_string
      → z.prepend_slice ≡ no_slice
      → log of_string z m logs ≡ none
  unfolding log
  log-unset z (log_debug args) logs string slice = print-unset at_debug z args logs slice
  log-unset z (log_info args) logs string slice = print-unset at_info z args logs slice
  log-unset z (log_warn args) logs string slice = print-unset at_warn z args logs slice
  log-unset z (log_error args) logs string slice = print-unset at_error z args logs slice
  log-unset z (log_debugf t args) logs string slice =
      print_format-unset at_debug z t args logs string
  log-unset z (log_infof t args) logs string slice = print_format-unset at_info z t args logs string
  log-unset z (log_warnf t args) logs string slice = print_format-unset at_warn z t args logs string
  log-unset z (log_warningf t args) logs string slice =
      print_format-unset at_warn z t args logs string
  log-unset z (log_errorf t args) logs string slice =
      print_format-unset at_error z t args logs string

  -- A logger that `NewWithConfig` makes of `Zap{}` panics at its first message, whichever it is, if no
  -- fields are given to it before.
  pub uses-new_with_config :
      (cfg : ZapConfig) (z : Zap Core) (m : Message Arg) (us : List (Use Arg))
      (logs : Logs Core Arg)
      → new_with_config build zero_zap cfg ≡ ok z
      → uses (zap_logger build of_string) z (write m ∷ us) logs ≡ none
  unfolding uses
  uses-new_with_config cfg z m us logs made =
      rw (uses, log-unset z m logs (unset cfg z made).0 (unset cfg z made).1) refl
