-- ===== src/Log/Logger.antt =====
-- The interface `Logger` of pkg/log/log.go, and the implementation of pkg/log/dummy.go.
use node_reaper.Base.{ℕ, ◌≡◌, refl, Option, none, some, List, [], ◌∷◌, Bytes, Result, ok}
use node_reaper.Log.Buffer.{Field}

-- A call of one of the nine methods that log.
pub data Message (Arg : Type 0) : Type 0 where
  log_debug log_info log_warn log_error : List Arg → Message Arg
  log_debugf log_infof log_warnf log_warningf log_errorf : Bytes → List Arg → Message Arg

-- The methods of a logger of type `L`, which write to a state; `none` is a panic.
pub record Logger (L S Arg : Type 0) : Type 0 where
  pub new : L → ℕ → Option (Result L)
  pub with_fields : L → List Field → Bytes → Bytes → L
  pub log : L → Message Arg → S → Option S

-- What a part of the program does with its logger: it goes on with one that has fields, or logs.
pub data Use (Arg : Type 0) : Type 0 where
  derive : List Field → Bytes → Bytes → Use Arg
  write : Message Arg → Use Arg

unfoldable pub uses : {L S Arg : Type 0} → Logger L S Arg → L → List (Use Arg) → S → Option S
uses i l [] s = some s
uses i l (derive fields prefix suffix ∷ us) s = uses i (i.with_fields l fields prefix suffix) us s
uses i l (write m ∷ us) s = elim (i.log l m s) [ none ↦ none | some s' ↦ uses i l us s' ]

-- `Dummy`
pub data Dummy : Type 0 where
  dummy : Dummy

-- All methods of `Dummy`.
abbrev pub dummy_log : {S Arg : Type 0} → Dummy → Message Arg → S → Option S
dummy_log z (log_debug args) s = some s
dummy_log z (log_debugf template args) s = some s
dummy_log z (log_info args) s = some s
dummy_log z (log_infof template args) s = some s
dummy_log z (log_warn args) s = some s
dummy_log z (log_warnf template args) s = some s
dummy_log z (log_warningf template args) s = some s
dummy_log z (log_error args) s = some s
dummy_log z (log_errorf template args) s = some s

abbrev pub dummy_logger : {S Arg : Type 0} → Logger Dummy S Arg
dummy_logger = record {
  new = λ z level. some (ok dummy);
  with_fields = λ z fields prefix suffix. dummy;
  log = dummy_log;
}

dummy_log_lem : {S Arg : Type 0} (z : Dummy) (m : Message Arg) (s : S) → dummy_log z m s ≡ some s
dummy_log_lem z (log_debug args) s = refl
dummy_log_lem z (log_debugf template args) s = refl
dummy_log_lem z (log_info args) s = refl
dummy_log_lem z (log_infof template args) s = refl
dummy_log_lem z (log_warn args) s = refl
dummy_log_lem z (log_warnf template args) s = refl
dummy_log_lem z (log_warningf template args) s = refl
dummy_log_lem z (log_error args) s = refl
dummy_log_lem z (log_errorf template args) s = refl

-- However the dummy logger is used, nothing is written and nothing panics.
pub uses-dummy :
    {S Arg : Type 0} (z : Dummy) (us : List (Use Arg)) (s : S) → uses dummy_logger z us s ≡ some s
unfolding uses
uses-dummy z [] s = refl
uses-dummy z (derive fields prefix suffix ∷ us) s = uses-dummy dummy us s
uses-dummy z (write m ∷ us) s = rw (uses, dummy_log_lem z m s) (uses-dummy z us s)
