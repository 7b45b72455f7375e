-- ===== src/Config/Limit/Accepts.antt =====
-- What `MaxNodesUnhealthy.Type` accepts, and what `Uint` makes of it.
use node_reaper.Base.{
  ℕ, ◌≤◌, ◌<◌, ◌≡◌, refl, ◌≢◌, ◌↔◌, true, false, [], ◌∷◌, ◌++◌, arith, Bytes, Result, ok, err,
  failure, value_out_of_range, All, length, Bool-cases, inl, inr, ltb, ltb→lt, sym, ap, subst, ◌∙◌,
  ◌⊎◌, cannot_parse_limit,
}
use node_reaper.Base.Int.{two_64}
use node_reaper.Config.Limit.{
  absolute, percentual, matches_digits, matches_percent, parse_uint, limit_uint, limit_type,
  percentage_type,
}
use node_reaper.Config.Limit.Digits.{
  IsDigit, value, matches_digits-All, All-matches_digits, parse_digits-fits, parse_digits-overflows,
  trim_suffix-digits, trim_suffix-append, percent-digits, digits-percent,
}

-- A percentage as text: one to three digits and a percent sign.
abbrev pub IsPercentage : Bytes → Bytes → Type 0
IsPercentage s d = (s ≡ d ++ b'%' ∷ []) × (d ≢ []) × All IsDigit d × (length d ≤ 3)

limit_uint-percentage : (s d : Bytes) → IsPercentage s d → limit_uint s ≡ parse_uint d
unfolding limit_uint
limit_uint-percentage s d h = rw (h.0, trim_suffix-append d b'%')

limit_uint-digits : (s : Bytes) → All IsDigit s → limit_uint s ≡ parse_uint s
unfolding limit_uint
limit_uint-digits s h = rw (trim_suffix-digits s h)

value-small : (d : Bytes) → All IsDigit d → length d ≤ 3 → value 0 d < 1000
value-small [] h short = omega arith
value-small (a ∷ []) h short = ground arith
value-small (a ∷ b ∷ []) h short = ground arith
value-small (a ∷ b ∷ c ∷ []) h short = ground arith
value-small (a ∷ b ∷ c ∷ e ∷ d) h short = absurd (omega arith)

parse_uint-digits :
    (d : Bytes) → d ≢ [] → All IsDigit d → value 0 d < two_64 → parse_uint d ≡ ok (value 0 d)
unfolding parse_uint
parse_uint-digits [] ne h fits = absurd (ne refl)
parse_uint-digits (c ∷ d) ne h fits = parse_digits-fits (c ∷ d) (c ∷ d) 0 h fits

parse_uint-overflows :
    (d : Bytes)
    → d ≢ []
    → All IsDigit d
    → two_64 ≤ value 0 d
    → parse_uint d ≡ err (failure value_out_of_range d)
unfolding parse_uint
parse_uint-overflows [] ne h big = absurd (ne refl)
parse_uint-overflows (c ∷ d) ne h big = parse_digits-overflows (c ∷ d) (c ∷ d) 0 h (omega arith) big

matches_percent_iff : (s : Bytes) → (matches_percent s ≡ true) ↔ ((d : Bytes) × IsPercentage s d)
unfolding matches_percent
matches_percent_iff s = (to, from)
  where
    to : matches_percent s ≡ true → (d : Bytes) × IsPercentage s d
    to h =
        let (d, spelt, digits, short, ne) = percent-digits s 3 false h in
        (d, (spelt, ne refl, digits, short))

    from : (d : Bytes) × IsPercentage s d → matches_percent s ≡ true
    from (d, p) = rw p.0 (digits-percent d 3 false p.2 p.3 (λ _. p.1))

-- A percentage does not match `^\d+$`.
percentage-not-digits : (d : Bytes) → All IsDigit (d ++ b'%' ∷ []) → ⊥
percentage-not-digits [] h = ground arith
percentage-not-digits (c ∷ d) h = percentage-not-digits d h.1

percentage_type-absolute : (s : Bytes) (r : Result ℕ) → percentage_type s r ≢ ok absolute
percentage_type-absolute s (ok n) h = ground arith
percentage_type-absolute s (err e) h = cc

-- The tests of `Type`, in their order.
limit_type-digits : (s : Bytes) → matches_digits s ≡ true → limit_type s ≡ ok absolute
unfolding limit_type
limit_type-digits s h = rw h

limit_type-percent :
    (s : Bytes)
    → matches_digits s ≡ false
    → matches_percent s ≡ true
    → limit_type s ≡ percentage_type s (limit_uint s)
unfolding limit_type
limit_type-percent s h k = rw (h, k)

limit_type-neither :
    (s : Bytes)
    → matches_digits s ≡ false
    → matches_percent s ≡ false
    → limit_type s ≡ err (failure cannot_parse_limit s)
unfolding limit_type
limit_type-neither s h k = rw (h, k)

-- A limit is absolute exactly when it is one or more digits and nothing else.
pub limit_type-absolute_iff :
    (s : Bytes) → (limit_type s ≡ ok absolute) ↔ ((s ≢ []) × All IsDigit s)
limit_type-absolute_iff s = (to, from)
  where
    to : limit_type s ≡ ok absolute → (s ≢ []) × All IsDigit s
    to h = elim (Bool-cases (matches_digits s)) [
      | inl digits ↦ matches_digits-All s digits
      | inr other ↦ elim (Bool-cases (matches_percent s)) [
        | inl percent ↦ absurd (
            percentage_type-absolute s (limit_uint s)
              (sym (limit_type-percent s other percent) ∙ h))
        | inr neither ↦ cc (limit_type-neither s other neither)
      ]
    ]

    from : (s ≢ []) × All IsDigit s → limit_type s ≡ ok absolute
    from h = limit_type-digits s (All-matches_digits s h.0 h.1)

percentage-other : (s d : Bytes) → IsPercentage s d → matches_digits s ≡ false
percentage-other s d p = elim (Bool-cases (matches_digits s)) [
  | inl digits ↦
      absurd (percentage-not-digits d (subst (All IsDigit) p.0 (matches_digits-All s digits).1))
  | inr other ↦ other
]

-- The type of a percentage, from the number that its digits spell.
limit_type-percentage :
    (s d : Bytes) → IsPercentage s d → limit_type s ≡ percentage_type s (ok (value 0 d))
limit_type-percentage s d p =
    let small = value-small d p.2 p.3 in
    limit_type-percent s (percentage-other s d p) ((matches_percent_iff s).1 (d, p))
    ∙ ap (percentage_type s)
        (limit_uint-percentage s d p ∙ parse_uint-digits d p.1 p.2 (omega arith))

-- A limit is a percentage exactly when it is one to three digits, which spell at most 100, and a
-- percent sign.
pub limit_type-percentual_iff :
    (s : Bytes)
    → (limit_type s ≡ ok percentual) ↔ ((d : Bytes) × IsPercentage s d × (value 0 d ≤ 100))
limit_type-percentual_iff s = (to, from)
  where
    to : limit_type s ≡ ok percentual → (d : Bytes) × IsPercentage s d × (value 0 d ≤ 100)
    to h = elim (Bool-cases (matches_digits s)) [
      | inl digits ↦ cc (limit_type-digits s digits)
      | inr other ↦ elim (Bool-cases (matches_percent s)) [
        | inl percent ↦
            let (d, p) = (matches_percent_iff s).0 percent in
            (d, p, ground (arith, limit_type-percentage s d p))
        | inr neither ↦ cc (limit_type-neither s other neither)
      ]
    ]

    from : (d : Bytes) × IsPercentage s d × (value 0 d ≤ 100) → limit_type s ≡ ok percentual
    from (d, p, small) = limit_type-percentage s d p ∙ ground arith

-- A limit is absolute exactly when it is one or more digits and nothing else, and a percentage exactly when
-- it is one to three digits, which spell at most 100, and a percent sign.
pub limit_type_iff :
    (s : Bytes)
    → ((limit_type s ≡ ok absolute) ↔ ((s ≢ []) × All IsDigit s))
      × ((limit_type s ≡ ok percentual) ↔ ((d : Bytes) × IsPercentage s d × (value 0 d ≤ 100)))
limit_type_iff s = (limit_type-absolute_iff s, limit_type-percentual_iff s)

-- The number of an absolute limit: what its digits spell if that fits 64 bits, and an error
-- otherwise, although `Type` accepts both.
pub limit_uint-absolute :
    (s : Bytes)
    → limit_type s ≡ ok absolute
    → ((value 0 s < two_64) × (limit_uint s ≡ ok (value 0 s)))
      ⊎ ((two_64 ≤ value 0 s) × (limit_uint s ≡ err (failure value_out_of_range s)))
limit_uint-absolute s h =
    let (ne, digits) = (limit_type-absolute_iff s).0 h in
    elim (Bool-cases (ltb (value 0 s) two_64)) [
      | inl fits ↦ inl (
        ltb→lt _ _ fits,
        limit_uint-digits s digits ∙ parse_uint-digits s ne digits (ltb→lt _ _ fits),
      )
      | inr big ↦ inr (
        ground arith,
        limit_uint-digits s digits ∙ parse_uint-overflows s ne digits (ground arith),
      )
    ]

-- The number of a percentage is what its digits spell, at most 100.
pub limit_uint-percentual :
    (s : Bytes)
    → limit_type s ≡ ok percentual
    → (d : Bytes) × (s ≡ d ++ b'%' ∷ []) × (limit_uint s ≡ ok (value 0 d)) × (value 0 d ≤ 100)
limit_uint-percentual s h =
    let (d, p, small) = (limit_type-percentual_iff s).0 h in
    (d, p.0, limit_uint-percentage s d p ∙ parse_uint-digits d p.1 p.2 (omega arith), small)
