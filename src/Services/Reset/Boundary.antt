-- ===== src/Services/Reset/Boundary.antt =====
-- What the reset boundary guarantees.
use mella_dashboard.Base.{
  ℕ, ◌+◌, ◌*◌, ◌≤◌, ◌<◌, ◌≡◌, ◌↔◌, ltb, ◌-◌, ◌/◌, Bool-cases, inl, inr, true, false, arith,
}
use mella_dashboard.Services.Reset.{
  ResetTime, day_ms, minute_ms, time_of_day, current_day_start, next_day_start, needs_daily_reset,
  trading_day_key,
}

-- A reset time on the clock, in a zone less than 100 hours from UTC, and an instant that is not in
-- the first ten days of 1970.
pub record InRange (r : ResetTime) (now : ℕ) : Type 0 where
  pub hour_range : r.hour ≤ 23
  pub minute_range : r.minute ≤ 59
  pub ahead_range : r.ahead ≤ 6039
  pub behind_range : r.behind ≤ 6039
  pub late : 10 * day_ms ≤ now

abbrev local : ResetTime → ℕ → ℕ
local r now = now + r.ahead * minute_ms - r.behind * minute_ms

boundary : ResetTime → ℕ → ℕ
boundary r now =
    local r now / day_ms * day_ms + time_of_day r + r.behind * minute_ms - r.ahead * minute_ms

late_key :
    (r : ResetTime) (now : ℕ)
    → InRange r now
    → ltb now (boundary r now) ≡ true
    → (local r now - time_of_day r) / day_ms + 1 ≡ local r now / day_ms
unfolding boundary
late_key r now h l = ground arith

early_key :
    (r : ResetTime) (now : ℕ)
    → InRange r now
    → ltb now (boundary r now) ≡ false
    → (local r now - time_of_day r) / day_ms ≡ local r now / day_ms
unfolding boundary
early_key r now h l = ground arith

-- On a clock in range the boundary is not after now, and less than a day before it, and the clock of
-- the zone shows the reset time at it, on the day that the trading-day key names.
pub current_day_start_lem :
    (r : ResetTime) (now : ℕ)
    → InRange r now
    → (current_day_start r now ≤ now)
      × (now < next_day_start r now)
      × (current_day_start r now + r.ahead * minute_ms
          ≡ trading_day_key now r * day_ms + time_of_day r + r.behind * minute_ms)
unfolding current_day_start next_day_start trading_day_key boundary
current_day_start_lem r now h = elim (Bool-cases (ltb now (boundary r now))) [
  | inl e ↦ rw e (let k = late_key r now h e in (ground arith, ground arith, ground arith))
  | inr e ↦ rw e (let k = early_key r now h e in (ground arith, ground arith, ground arith))
]

-- For instants in range, two lie on one trading day exactly when they have the same boundary.
pub trading_day_key_iff :
    (r : ResetTime) (a b : ℕ)
    → InRange r a
    → InRange r b
    → (trading_day_key a r ≡ trading_day_key b r) ↔ (current_day_start r a ≡ current_day_start r b)
trading_day_key_iff r a b ha hb =
    let (la, na, ea) = current_day_start_lem r a ha in
    let (lb, nb, eb) = current_day_start_lem r b hb in ground arith

-- For instants in range that go forward, a new day has begun exactly when the anchor is the boundary
-- of an earlier trading day.
pub needs_daily_reset_iff :
    (r : ResetTime) (before now : ℕ)
    → InRange r before
    → InRange r now
    → (needs_daily_reset (current_day_start r before) r now ≡ true)
      ↔ (trading_day_key before r < trading_day_key now r)
unfolding needs_daily_reset
needs_daily_reset_iff r a b ha hb =
    let (la, na, ea) = current_day_start_lem r a ha in
    let (lb, nb, eb) = current_day_start_lem r b hb in ground arith
