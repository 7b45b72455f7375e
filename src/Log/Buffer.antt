-- ===== src/Log/Buffer.antt =====
-- pkg/log/zap.go: the buffer `prependBuffer`, which all loggers share, and what `WithFields` writes to
-- it for each message.
use node_reaper.Base.{
  ℕ, zero, suc, ◌-◌, ◌≡◌, refl, sym, ap, ◌∙◌, List, [], ◌∷◌, ◌++◌, append_assoc, append-nil, Bytes,
  length,
}

-- `Field` of pkg/log/log.go
pub record Field : Type 0 where
  pub field : Bytes
  pub width : ℕ

-- What is done to the buffer.
pub data Step : Type 0 where
  reset : Step
  write_string : Bytes → Step

abbrev pub step : Step → Bytes → Bytes
step reset buffer = []
step (write_string s) buffer = buffer ++ s

-- `n` spaces
abbrev pub spaces : ℕ → Bytes
spaces zero = []
spaces (suc n) = 32 ∷ spaces n

-- `fmt.Sprintf("%-<width>s", field)` for a field in ASCII and a width of at most a million
unfoldable pub pad : Field → Bytes
pad f = f.field ++ spaces (f.width - length f.field)

-- The loop over the fields.
unfoldable pub write_fields : List Field → Bytes → Bytes → List Step
write_fields [] prefix suffix = []
write_fields (f ∷ fields) prefix suffix =
    write_string prefix
    ∷ write_string (pad f)
    ∷ write_string suffix
    ∷ write_fields fields prefix suffix

-- What `prependString` does before it returns the contents of the buffer, where there are fields.
unfoldable pub prepend_steps : List Field → Bytes → Bytes → Bytes → List Step
unfolding write_fields
prepend_steps fields prefix suffix s =
    reset ∷ write_fields fields prefix suffix ++ write_string s ∷ []

abbrev pub run_steps : List Step → Bytes → Bytes
run_steps [] buffer = buffer
run_steps (x ∷ xs) buffer = run_steps xs (step x buffer)

-- Every field, padded, between the prefix and the suffix.
abbrev pub prepended : List Field → Bytes → Bytes → Bytes
prepended [] prefix suffix = []
prepended (f ∷ fields) prefix suffix = prefix ++ pad f ++ suffix ++ prepended fields prefix suffix

pub run_steps-append :
    (xs ys : List Step) (buffer : Bytes)
    → run_steps (xs ++ ys) buffer ≡ run_steps ys (run_steps xs buffer)
run_steps-append [] ys buffer = refl
run_steps-append (x ∷ xs) ys buffer = run_steps-append xs ys (step x buffer)

pub run_steps-write_fields :
    (fields : List Field) (prefix suffix buffer : Bytes)
    → run_steps (write_fields fields prefix suffix) buffer
      ≡ buffer ++ prepended fields prefix suffix
unfolding write_fields
run_steps-write_fields [] prefix suffix buffer = sym (append-nil buffer)
run_steps-write_fields (f ∷ fields) prefix suffix buffer =
    run_steps-write_fields fields prefix suffix (((buffer ++ prefix) ++ pad f) ++ suffix)
    ∙ simp (append_assoc)

-- What is written after a reset follows what was in the buffer.
pub run_steps-written :
    (fields : List Field) (prefix suffix s buffer : Bytes)
    → run_steps (write_fields fields prefix suffix ++ write_string s ∷ []) buffer
      ≡ buffer ++ (prepended fields prefix suffix ++ s)
run_steps-written fields prefix suffix s buffer =
    run_steps-append (write_fields fields prefix suffix) (write_string s ∷ []) buffer
    ∙ ap (λ b. b ++ s) (run_steps-write_fields fields prefix suffix buffer)
    ∙ append_assoc buffer (prepended fields prefix suffix) s

-- A message that is put together without interruption has the fields before it, whatever the buffer
-- had been used for.
pub run_steps-prepend_steps :
    (fields : List Field) (prefix suffix s buffer : Bytes)
    → run_steps (prepend_steps fields prefix suffix s) buffer ≡ prepended fields prefix suffix ++ s
unfolding prepend_steps
run_steps-prepend_steps fields prefix suffix s buffer = run_steps-written fields prefix suffix s []
