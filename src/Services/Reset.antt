-- ===== src/Services/Reset.antt =====
-- The reset boundary of src/lib/services/dailyReset.ts. An instant is a number of milliseconds since
-- 1970. A zone is ahead of UTC or behind it by whole minutes.
pub mod Boundary
use mella_dashboard.Base.{ℕ, ◌+◌, ◌-◌, ◌*◌, ◌/◌, ◌≤◌, Bool, ltb, if◌then◌else◌}

abbrev pub minute_ms : ℕ
minute_ms = 60_000

abbrev pub day_ms : ℕ
day_ms = 86_400_000

-- `offsetMinutes` is `ahead - behind`, of which one is 0.
pub record ResetTime : Type 0 where
  pub hour : ℕ
  pub minute : ℕ
  pub ahead : ℕ
  pub behind : ℕ

abbrev pub time_of_day : ResetTime → ℕ
time_of_day r = (r.hour * 60 + r.minute) * minute_ms

-- The zone's clock at an instant.
abbrev pub local_clock : ResetTime → ℕ → ℕ
local_clock r now = now + r.ahead * minute_ms - r.behind * minute_ms

unfoldable pub current_day_start : ResetTime → ℕ → ℕ
current_day_start r now =
    let boundary = local_clock r now / day_ms * day_ms + time_of_day r in
    let instant = boundary + r.behind * minute_ms - r.ahead * minute_ms in
    if ltb now instant then instant - day_ms else instant

unfoldable pub next_day_start : ResetTime → ℕ → ℕ
unfolding current_day_start
next_day_start r now = current_day_start r now + day_ms

unfoldable pub needs_daily_reset : ℕ → ResetTime → ℕ → Bool
needs_daily_reset anchor r now = ltb anchor (current_day_start r now)

-- The day's number stands for its key YYYY-MM-DD.
unfoldable pub trading_day_key : ℕ → ResetTime → ℕ
trading_day_key instant r = (local_clock r instant - time_of_day r) / day_ms
