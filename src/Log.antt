-- ===== src/Log.antt =====
-- The levels of pkg/log/log.go.
pub mod Buffer
pub mod Overlap
pub mod Logger
pub mod Zap
use node_reaper.Base.{
  ℕ, ◌+◌, ◌≡◌, ◌⊎◌, List, [], ◌∷◌, Option, none, some, arith, Bytes, codes, bytes_eq, bytes_eq_iff,
  Result, ok, err, failure, invalid_log_level, if◌then◌else◌, get_elem?,
}

-- `INFO` and `DEBUG`, numbered from 1.
abbrev pub info : ℕ
info = 1

abbrev pub debug : ℕ
debug = 2

-- `Levels`
abbrev pub levels : List Bytes
levels = codes "INFO" ∷ codes "DEBUG" ∷ []

-- The loop of `StringToLogLevel`, at index `i`.
unfoldable pub find_level : ℕ → List Bytes → Bytes → Result ℕ
find_level i [] l = err (failure invalid_log_level l)
find_level i (v ∷ vs) l = if bytes_eq v l then ok (i + 1) else find_level (i + 1) vs l

-- `StringToLogLevel`
unfoldable pub string_to_log_level : Bytes → Result ℕ
unfolding find_level
string_to_log_level l = find_level 0 levels l

-- `Level.String`; `none` is the panic of an index out of range
unfoldable pub level_string : ℕ → Option Bytes
level_string level = get_elem? levels level

-- The texts of the levels are read, and no other.
pub string_to_log_level-ok :
    (l : Bytes) (level : ℕ)
    → string_to_log_level l ≡ ok level
    → ((l ≡ codes "INFO") × (level ≡ info)) ⊎ ((l ≡ codes "DEBUG") × (level ≡ debug))
unfolding string_to_log_level
string_to_log_level-ok l level h =
    ground (arith, bytes_eq_iff (codes "INFO") l, bytes_eq_iff (codes "DEBUG") l)

-- Printing a level that was read never gives back its text: the level is used as an index from 0, so
-- that `INFO` prints as `DEBUG`, and `DEBUG` is out of range.
pub level_string-off_by_one :
    (l : Bytes) (level : ℕ)
    → string_to_log_level l ≡ ok level
    → ((l ≡ codes "INFO") × (level_string level ≡ some (codes "DEBUG")))
      ⊎ ((l ≡ codes "DEBUG") × (level_string level ≡ none))
unfolding level_string
level_string-off_by_one l level h = ground (arith, string_to_log_level-ok l level h)
