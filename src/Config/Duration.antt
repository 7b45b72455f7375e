-- ===== src/Config/Duration.antt =====
-- `time.Duration` as pkg/config/config.go and pkg/drainer/drain.go use it: an int64 of nanoseconds,
-- made from unsigned seconds and divided back to seconds.
use node_reaper.Base.{ℕ, ◌*◌, ◌≤◌, ◌<◌, ◌≡◌, true, arith}
use node_reaper.Base.Int.{ℤ, pos, int64, quot_ℤ, ltb_ℤ}

abbrev pub second : ℕ
second = 1000000000

-- The most seconds that fit an int64 of nanoseconds.
abbrev pub max_seconds : ℕ
max_seconds = 9223372036

-- `time.Duration(s) * time.Second`, both steps modulo 2 ^ 64.
unfoldable pub seconds : ℕ → ℤ
unfolding int64
seconds s = int64 (s * second)

-- `int64(d / time.Second)`
unfoldable pub whole_seconds : ℤ → ℤ
unfolding quot_ℤ
whole_seconds d = quot_ℤ d second

pub seconds-small : (s : ℕ) → s ≤ max_seconds → seconds s ≡ pos (s * second)
unfolding seconds
seconds-small s h = ground arith

-- Seconds that fit in int64 nanoseconds come back when the duration is divided by a second.
pub whole_seconds-seconds : (s : ℕ) → s ≤ max_seconds → whole_seconds (seconds s) ≡ pos s
unfolding whole_seconds
whole_seconds-seconds s h = rw (seconds-small s h) (ground arith)

-- From the first number of seconds that does not fit in int64 nanoseconds on, up to 18446744073, the
-- duration comes out negative.
pub seconds-overflow :
    (s : ℕ) → max_seconds < s → s ≤ 18446744073 → ltb_ℤ (seconds s) (pos 0) ≡ true
unfolding seconds
seconds-overflow s big bound = ground arith
