-- ===== src/Config/Limit.antt =====
-- `MaxNodesUnhealthy` of pkg/config/config.go: a limit written as a number or as a percentage.
-- `strconv.ParseUint` is that of base 10 and 64 bits, and the two regular expressions are written
-- out as functions.
pub mod Digits
pub mod Accepts
use node_reaper.Base.{
  List, Option, codes, get_elem?, ℕ, ◌+◌, ◌-◌, ◌*◌, Bool, true, false, ◌&&◌, ◌||◌, [], ◌∷◌, ltb,
  leb, ◌==◌, if◌then◌else◌, Bytes, trim_suffix, Result, ok, err, Error, failure, invalid_syntax,
  value_out_of_range, cannot_parse_limit, percentage_above_100, ◌>>=◌,
}
use node_reaper.Base.Int.{two_64}

-- The accepted types, which the source numbers from 1.
pub data LimitType : Type 0 where
  absolute percentual : LimitType

-- `MaxNodesUnhealthyType.String`, which indexes the names from 0; `none` is the panic.
abbrev type_number : LimitType → ℕ
type_number absolute = 1
type_number percentual = 2

abbrev type_names : List Bytes
type_names = codes "ABSOLUTE" ∷ codes "PERCENTUAL" ∷ []

abbrev pub type_string : LimitType → Option Bytes
type_string t = get_elem? type_names (type_number t)

abbrev pub is_digit : ℕ → Bool
is_digit c = leb b'0' c && leb c b'9'

-- `^\d+$`
unfoldable pub matches_digits : Bytes → Bool
matches_digits [] = false
matches_digits (c ∷ []) = is_digit c
matches_digits (c ∷ d ∷ s) = is_digit c && matches_digits (d ∷ s)

abbrev is_empty : Bytes → Bool
is_empty [] = true
is_empty (c ∷ s) = false

-- `^\d{1,3}%$`, with the number of digits still allowed and whether one has been read
unfoldable pub matches_percent_from : ℕ → Bool → Bytes → Bool
matches_percent_from left seen [] = false
matches_percent_from left seen (c ∷ s) =
    if is_digit c
    then ltb 0 left && matches_percent_from (left - 1) true s
    else c == b'%' && seen && is_empty s

unfoldable pub matches_percent : Bytes → Bool
unfolding matches_percent_from
matches_percent s = matches_percent_from 3 false s

-- The loop of `strconv.ParseUint(s, 10, 64)`, which stops at the first digit that overflows.
unfoldable pub parse_digits : ℕ → Bytes → Bytes → Result ℕ
parse_digits n text [] = ok n
parse_digits n text (c ∷ s) =
    let m = n * 10 + (c - b'0') in
    if is_digit c
    then if ltb m two_64 then parse_digits m text s else err (failure value_out_of_range text)
    else err (failure invalid_syntax text)

unfoldable pub parse_uint : Bytes → Result ℕ
unfolding parse_digits
parse_uint [] = err (failure invalid_syntax [])
parse_uint (c ∷ s) = parse_digits 0 (c ∷ s) (c ∷ s)

-- `MaxNodesUnhealthy.Uint`
unfoldable pub limit_uint : Bytes → Result ℕ
unfolding parse_uint trim_suffix
limit_uint mnu = parse_uint (trim_suffix mnu b'%')

-- What `Type` does once the percent pattern has matched.
abbrev pub percentage_type : Bytes → Result ℕ → Result LimitType
percentage_type mnu (err e) = err (failure cannot_parse_limit mnu)
percentage_type mnu (ok val) =
    if ltb 100 val then err (failure percentage_above_100 mnu) else ok percentual

-- `MaxNodesUnhealthy.Type`
unfoldable pub limit_type : Bytes → Result LimitType
unfolding matches_digits matches_percent limit_uint
limit_type mnu =
    if matches_digits mnu
    then ok absolute
    else if matches_percent mnu
    then percentage_type mnu (limit_uint mnu)
    else err (failure cannot_parse_limit mnu)
