-- ===== src/Health.antt =====
-- pkg/nodereaper/cluster_health_calculator.go: how many unhealthy nodes are too many. Go's float64 is
-- a parameter; `Health.Float` states what the percentages need of it.
pub mod Float
pub mod Limits
use node_reaper.Base.{ℕ, Bool, true, false, Bytes, Result, ok, err, ◌>>=◌, ltb, if◌then◌else◌}
use node_reaper.Config.Limit.{LimitType, absolute, percentual, limit_type, limit_uint}

-- The operations of float64 that the program calls.
pub record Float64 (F : Type 0) : Type 0 where
  -- `float64(n)` and `uint(x)`
  pub of_uint : ℕ → F
  pub to_uint : F → ℕ
  -- `*`, `/` and `math.Ceil`
  pub times : F → F → F
  pub over : F → F → F
  pub ceil : F → F

abbrev pub ClusterHealthCalculator : Type 0
ClusterHealthCalculator = ℕ → ℕ → Bool

unfoldable pub absolute_health : ℕ → ClusterHealthCalculator
absolute_health max_unhealthy unhealthy total = if ltb max_unhealthy unhealthy then false else true

module _ {F : Type 0} (f : Float64 F) where
  open f use {of_uint, to_uint, times, over, ceil}

  unfoldable pub unhealthy_percent : ℕ → ℕ → ℕ
  unhealthy_percent unhealthy total =
      to_uint (ceil (over (times (of_uint unhealthy) (of_uint 100)) (of_uint total)))

  unfoldable pub percentual_health : ℕ → ClusterHealthCalculator
  percentual_health max_percent unhealthy total =
      if ltb max_percent (unhealthy_percent unhealthy total) then false else true

  -- The calculator of a type with its limit.
  abbrev pub calculator : LimitType → ℕ → ClusterHealthCalculator
  calculator percentual max = percentual_health max
  calculator absolute max = absolute_health max

  -- `NewClusterHealthCalculator`
  unfoldable pub new_calculator : Bytes → Result ClusterHealthCalculator
  new_calculator mnu = do
    mnu_type ← limit_type mnu
    mnu_uint ← limit_uint mnu
    ok (calculator mnu_type mnu_uint)
