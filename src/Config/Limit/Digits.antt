-- ===== src/Config/Limit/Digits.antt =====
-- The digit patterns and `strconv.ParseUint` against the number that a run of digits spells.
use node_reaper.Base.{
  ℕ, ◌+◌, ◌-◌, ◌*◌, ◌≤◌, ◌<◌, ◌≡◌, refl, ap, ◌≢◌, Bool, true, false, [], ◌∷◌, ◌++◌, arith, Bytes,
  trim_suffix, ok, err, failure, value_out_of_range, All, length, Bool-cases, inl, inr,
}
use node_reaper.Base.Int.{two_64}
use node_reaper.Config.Limit.{
  is_digit, is_empty, matches_digits, matches_percent_from, parse_digits,
}

abbrev pub IsDigit : ℕ → Type 0
IsDigit c = is_digit c ≡ true

-- The number that digits spell behind `n`, with no bound.
abbrev pub value : ℕ → Bytes → ℕ
value n [] = n
value n (c ∷ s) = value (n * 10 + (c - b'0')) s

-- Further digits never make a number smaller.
pub le-value : (start : ℕ) (digits : Bytes) → start ≤ value start digits
le-value start [] = omega arith
le-value start (d ∷ digits) =
    let next = start * 10 + (d - b'0') in omega (arith, le-value next digits)

pub matches_digits-All : (s : Bytes) → matches_digits s ≡ true → (s ≢ []) × All IsDigit s
unfolding matches_digits
matches_digits-All [] h = cc
matches_digits-All (c ∷ []) h = ground arith
matches_digits-All (c ∷ d ∷ s) h = ground (arith, matches_digits-All (d ∷ s))

pub All-matches_digits : (s : Bytes) → s ≢ [] → All IsDigit s → matches_digits s ≡ true
unfolding matches_digits
All-matches_digits [] ne h = absurd (ne refl)
All-matches_digits (c ∷ []) ne h = ground arith
All-matches_digits (c ∷ d ∷ s) ne h = ground (arith, All-matches_digits (d ∷ s) (λ e. cc))

pub parse_digits-fits :
    (s text : Bytes) (n : ℕ)
    → All IsDigit s
    → value n s < two_64
    → parse_digits n text s ≡ ok (value n s)
unfolding parse_digits
parse_digits-fits [] text n h fits = refl
parse_digits-fits (c ∷ s) text n h fits =
    let m = n * 10 + (c - b'0') in ground (arith, le-value m s, parse_digits-fits s text m h.1 fits)

pub parse_digits-overflows :
    (s text : Bytes) (n : ℕ)
    → All IsDigit s
    → n < two_64
    → two_64 ≤ value n s
    → parse_digits n text s ≡ err (failure value_out_of_range text)
unfolding parse_digits
parse_digits-overflows [] text n h small big = absurd (omega arith)
parse_digits-overflows (c ∷ s) text n h small big =
    let m = n * 10 + (c - b'0') in ground (arith, parse_digits-overflows s text m h.1)

pub trim_suffix-digits : (s : Bytes) → All IsDigit s → trim_suffix s b'%' ≡ s
unfolding trim_suffix
trim_suffix-digits [] h = refl
trim_suffix-digits (c ∷ []) h = ground arith
trim_suffix-digits (c ∷ d ∷ s) h = rw (trim_suffix-digits (d ∷ s) h.1)

pub trim_suffix-append : (s : Bytes) (c : ℕ) → trim_suffix (s ++ c ∷ []) c ≡ s
unfolding trim_suffix
trim_suffix-append [] c = ground arith
trim_suffix-append (x ∷ []) c = ap (λ t. x ∷ t) (trim_suffix-append [] c)
trim_suffix-append (x ∷ y ∷ s) c = ap (λ t. x ∷ t) (trim_suffix-append (y ∷ s) c)

is_empty-eq : (s : Bytes) → is_empty s ≡ true → s ≡ []
is_empty-eq [] h = refl
is_empty-eq (c ∷ s) h = cc

-- A run of digits followed by a percent sign, read off the pattern.
pub percent-digits :
    (s : Bytes) (left : ℕ) (seen : Bool)
    → matches_percent_from left seen s ≡ true
    → (d : Bytes) × (s ≡ d ++ b'%' ∷ [])
      × All IsDigit d
      × (length d ≤ left)
      × (seen ≡ false → d ≢ [])
unfolding matches_percent_from
percent-digits [] left seen h = cc
percent-digits (c ∷ s) left seen h = elim (Bool-cases (is_digit c)) [
  | inl digit ↦
      let (d, spelt, digits, short, _) = percent-digits s (left - 1) true (ground arith) in
      (c ∷ d, ap (λ t. c ∷ t) spelt, (digit, digits), ground arith, λ _ e. cc)
  | inr other ↦ ([], ground (arith, is_empty-eq s), tt, omega arith, ground arith)
]

pub digits-percent :
    (d : Bytes) (left : ℕ) (seen : Bool)
    → All IsDigit d
    → length d ≤ left
    → (seen ≡ false → d ≢ [])
    → matches_percent_from left seen (d ++ b'%' ∷ []) ≡ true
unfolding matches_percent_from
digits-percent [] left true h fits ne = refl
digits-percent [] left false h fits ne = absurd (ne refl refl)
digits-percent (c ∷ d) left seen h fits ne = ground (arith, digits-percent d (left - 1) true h.1)
