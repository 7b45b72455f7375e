-- ===== src/Health/Limits.antt =====
-- What the calculators decide.
use node_reaper.Base.{
  ℕ, ◌*◌, ◌≤◌, ◌<◌, ◌≡◌, ◌↔◌, true, arith, Bytes, ok, err, failure, value_out_of_range, [], ◌∷◌,
  ◌++◌, inl, inr,
}
use node_reaper.Base.Int.{two_64}
use node_reaper.Config.Limit.{absolute, percentual, limit_type}
use node_reaper.Config.Limit.Digits.{value}
use node_reaper.Config.Limit.Accepts.{limit_uint-absolute, limit_uint-percentual}
use node_reaper.Health.{
  Float64, ClusterHealthCalculator, absolute_health, unhealthy_percent, percentual_health,
  new_calculator,
}
use node_reaper.Health.Float.{IsIeee, two_53, div_up}

-- Rounding up keeps a bound by a whole number.
div_up-le_iff : (a b m : ℕ) → 0 < b → (div_up a b ≤ m) ↔ (a ≤ m * b)
div_up-le_iff a b m h = (λ k. grind arith, λ k. grind arith)

-- An absolute limit is kept exactly when no more nodes are unhealthy than it says, whatever the total.
pub absolute_health_iff :
    (max unhealthy total : ℕ) → (absolute_health max unhealthy total ≡ true) ↔ (unhealthy ≤ max)
unfolding absolute_health
absolute_health_iff max unhealthy total = ground arith

unhealthy_percent-exact :
    {F : Type 0} (f : Float64 F) (unhealthy total : ℕ)
    → IsIeee f
    → unhealthy * 100 < two_53
    → total < two_53
    → 0 < total
    → unhealthy_percent f unhealthy total ≡ div_up (unhealthy * 100) total
unfolding unhealthy_percent
unhealthy_percent-exact f unhealthy total ieee small few some_node =
    rw (unhealthy_percent, ieee.times_exact unhealthy 100 small)
      (ieee.ceil-over (unhealthy * 100) total small few some_node)

-- With at least one node and numbers of nodes whose hundredfold stays below 2 ^ 53, a percentage is
-- kept exactly when the unhealthy nodes are at most that part of the total, by exact arithmetic.
pub percentual_health_iff :
    {F : Type 0} (f : Float64 F) (max unhealthy total : ℕ)
    → IsIeee f
    → unhealthy * 100 < two_53
    → total < two_53
    → 0 < total
    → (percentual_health f max unhealthy total ≡ true) ↔ (unhealthy * 100 ≤ max * total)
unfolding percentual_health
percentual_health_iff f max unhealthy total ieee small few some_node =
    let bound = div_up-le_iff (unhealthy * 100) total max some_node in
    ground (arith, unhealthy_percent-exact f unhealthy total ieee small few some_node, bound)

-- A text of digits that fit 64 bits gives a calculator that allows as many unhealthy nodes as it says.
pub new_calculator-absolute :
    {F : Type 0} (f : Float64 F) (s : Bytes) (unhealthy total : ℕ)
    → limit_type s ≡ ok absolute
    → value 0 s < two_64
    → (c : ClusterHealthCalculator) × (new_calculator f s ≡ ok c)
      × ((c unhealthy total ≡ true) ↔ (unhealthy ≤ value 0 s))
unfolding new_calculator
new_calculator-absolute f s unhealthy total kind fits = (
  absolute_health (value 0 s),
  elim (limit_uint-absolute s kind) [
    | inl (_, number) ↦ rw (kind, number)
    | inr (big, _) ↦ absurd (omega arith)
  ],
  absolute_health_iff (value 0 s) unhealthy total,
)

-- Where float64 divides as IEEE 754 does and the numbers are below its precision, a text that is a
-- percentage gives a calculator that allows, of a total that is not zero, the part that it says.
pub new_calculator-percentual :
    {F : Type 0} (f : Float64 F) (s : Bytes) (unhealthy total : ℕ)
    → limit_type s ≡ ok percentual
    → IsIeee f
    → unhealthy * 100 < two_53
    → total < two_53
    → 0 < total
    → (c : ClusterHealthCalculator) × (d : Bytes) × (new_calculator f s ≡ ok c)
      × (s ≡ d ++ b'%' ∷ [])
      × (value 0 d ≤ 100)
      × ((c unhealthy total ≡ true) ↔ (unhealthy * 100 ≤ value 0 d * total))
unfolding new_calculator
new_calculator-percentual f s unhealthy total kind ieee few_bad few some_node =
    let (d, spelt, number, small) = limit_uint-percentual s kind in
    (
      percentual_health f (value 0 d),
      d,
      rw (kind, number),
      spelt,
      small,
      percentual_health_iff f (value 0 d) unhealthy total ieee few_bad few some_node,
    )

-- A text of digits that do not fit 64 bits passes `Type`, which is all that the configuration checks,
-- and gives no calculator.
pub new_calculator-refuses :
    {F : Type 0} (f : Float64 F) (s : Bytes)
    → limit_type s ≡ ok absolute
    → two_64 ≤ value 0 s
    → new_calculator f s ≡ err (failure value_out_of_range s)
unfolding new_calculator
new_calculator-refuses f s kind big = elim (limit_uint-absolute s kind) [
  | inl (fits, _) ↦ absurd (omega arith)
  | inr (_, number) ↦ rw (kind, number)
]
