-- ===== src/Health/Float.antt =====
-- What IEEE 754 says of the float64 operations on whole numbers below 2 ^ 53, and exact fractions as
-- one arithmetic that meets it.
use node_reaper.Base.{ℕ, ◌+◌, ◌-◌, ◌*◌, ◌/◌, ◌<◌, ◌≡◌, refl}
use native.Mathlib.Nat.{mul-one, one-mul, div-one}
use node_reaper.Health.{Float64}

abbrev pub two_53 : ℕ
two_53 = 9007199254740992

-- A quotient rounded up to a whole number.
abbrev pub div_up : ℕ → ℕ → ℕ
div_up a b = (a + b - 1) / b

pub record IsIeee {F : Type 0} (f : Float64 F) : Type 0 where
  -- a product of whole numbers that stays below 2 ^ 53 is exact
  pub times_exact :
      (a b : ℕ) → a * b < two_53 → f.times (f.of_uint a) (f.of_uint b) ≡ f.of_uint (a * b)
  -- A quotient of whole numbers below 2 ^ 53 that is no whole number differs from every whole number
  -- by more than the rounding of the division, and one that is whole is exact.
  pub ceil-over :
      (a b : ℕ)
      → a < two_53
      → b < two_53
      → 0 < b
      → f.to_uint (f.ceil (f.over (f.of_uint a) (f.of_uint b))) ≡ div_up a b

-- Fractions as pairs of a numerator and a denominator.
abbrev pub fractions : Float64 (ℕ × ℕ)
fractions = record {
  of_uint = λ n. (n, 1);
  to_uint = λ x. x.0 / x.1;
  times = λ x y. (x.0 * y.0, x.1 * y.1);
  over = λ x y. (x.0 * y.1, x.1 * y.0);
  ceil = λ x. (div_up x.0 x.1, 1);
}

pub fractions-IsIeee : IsIeee fractions
fractions-IsIeee = record {
  times_exact = λ a b h. refl;
  ceil-over = λ a b h k p. simp (mul-one, one-mul, div-one);
}
