-- ===== src/Config/Decimal.antt =====
-- How fmt prints numbers in decimal, and that `strconv.ParseUint` reads them back.
use node_reaper.Base.{
  ℕ, zero, suc, ◌+◌, ◌-◌, ◌*◌, ◌/◌, ◌%◌, ◌<◌, ◌≡◌, ◌≢◌, refl, sym, subst, ◌∙◌, ap, true, false, [],
  ◌∷◌, ◌==◌, arith, All, Bytes, if◌then◌else◌, ok, Bool-cases, inl, inr,
}
use node_reaper.Base.Int.{two_64}
use node_reaper.Config.Limit.{parse_uint}
use node_reaper.Config.Limit.Digits.{IsDigit, value, parse_digits-fits}

-- The digits of a number before others; the fuel is more than the number.
unfoldable decimal_from : ℕ → ℕ → Bytes → Bytes
decimal_from zero n rest = rest
decimal_from (suc fuel) n rest =
    let digits = (b'0' + n % 10) ∷ rest in
    let more = decimal_from fuel (n / 10) digits in if n / 10 == 0 then digits else more

-- `%d` for a number
unfoldable pub decimal : ℕ → Bytes
unfolding decimal_from
decimal n = decimal_from (suc n) n []

decimal_from-value :
    (fuel n : ℕ) (rest : Bytes) → n < fuel → value 0 (decimal_from fuel n rest) ≡ value n rest
unfolding decimal_from
decimal_from-value zero n rest enough = absurd (omega arith)
decimal_from-value (suc fuel) n rest enough = elim (Bool-cases (n / 10 == 0)) [
  | inl last ↦ rw last (ap (λ m. value m rest) (last_digit n last))
  | inr more ↦
      let d = b'0' + n % 10 in
      rw more (
        decimal_from-value fuel (n / 10) (d ∷ rest) (smaller n fuel more enough)
        ∙ ap (λ m. value m rest) (rejoined n))
]
  where
    last_digit : (n : ℕ) → (n / 10 == 0) ≡ true → 0 * 10 + ((b'0' + n % 10) - b'0') ≡ n
    last_digit n last = ground arith

    smaller : (n fuel : ℕ) → (n / 10 == 0) ≡ false → n < suc fuel → n / 10 < fuel
    smaller n fuel more enough = ground arith

    rejoined : (n : ℕ) → n / 10 * 10 + ((b'0' + n % 10) - b'0') ≡ n
    rejoined n = omega arith

decimal_from-All :
    (fuel n : ℕ) (rest : Bytes) → All IsDigit rest → All IsDigit (decimal_from fuel n rest)
unfolding decimal_from
decimal_from-All zero n rest h = h
decimal_from-All (suc fuel) n rest h = elim (Bool-cases (n / 10 == 0)) [
  | inl last ↦ rw last (digit n, h)
  | inr more ↦ rw more (decimal_from-All fuel (n / 10) ((b'0' + n % 10) ∷ rest) (digit n, h))
]
  where
    digit : (n : ℕ) → IsDigit (b'0' + n % 10)
    digit n = ground arith

-- The digits of a number spell it.
decimal-value : (n : ℕ) → value 0 (decimal n) ≡ n
unfolding decimal
decimal-value n = decimal_from-value (suc n) n [] (omega arith)

decimal-All : (n : ℕ) → All IsDigit (decimal n)
unfolding decimal
decimal-All n = decimal_from-All (suc n) n [] tt

decimal_from-nonempty : (fuel n : ℕ) (rest : Bytes) → rest ≢ [] → decimal_from fuel n rest ≢ []
unfolding decimal_from
decimal_from-nonempty zero n rest h = h
decimal_from-nonempty (suc fuel) n rest h = elim (Bool-cases (n / 10 == 0)) [
  | inl last ↦ rw last (λ e. cc)
  | inr more ↦ rw more (decimal_from-nonempty fuel (n / 10) ((b'0' + n % 10) ∷ rest) (λ e. cc))
]

decimal-nonempty : (n : ℕ) → decimal n ≢ []
unfolding decimal decimal_from
decimal-nonempty n = elim (Bool-cases (n / 10 == 0)) [
  | inl last ↦ rw last (λ e. cc)
  | inr more ↦ rw more (decimal_from-nonempty n (n / 10) ((b'0' + n % 10) ∷ []) (λ e. cc))
]

-- A printed number is read back.
pub decimal-parse : (n : ℕ) → n < two_64 → parse_uint (decimal n) ≡ ok n
unfolding parse_uint
decimal-parse n fits = go (decimal n) refl
  where
    go : (s : Bytes) → s ≡ decimal n → parse_uint s ≡ ok n
    go [] e = absurd (decimal-nonempty n (sym e))
    go (c ∷ s) e =
        let spells : value 0 (c ∷ s) ≡ n = ap (value 0) e ∙ decimal-value n in
        parse_digits-fits (c ∷ s) (c ∷ s) 0 (subst (All IsDigit) (sym e) (decimal-All n))
          (subst (λ (m : ℕ). m < two_64) (sym spells) fits)
        ∙ ap ok spells

pub decimal-injective : (n m : ℕ) → decimal n ≡ decimal m → n ≡ m
decimal-injective n m h = sym (decimal-value n) ∙ ap (value 0) h ∙ decimal-value m

-- No number begins with the sign.
pub unsigned : (n m : ℕ) → ¬ (decimal n ≡ b'-' ∷ decimal m)
unsigned n m h = absurd (ground (arith, subst (All IsDigit) h (decimal-All n)))
