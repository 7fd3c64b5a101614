-- ===== src/Challenge/Rules/Floors.antt =====
-- The equity floors of `maxDrawdownFloor` and `dailyLossFloor`.
use mella_dashboard.Base.{
  ◌+◌, ◌%◌, ◌≤◌, ◌≡◌, pos, abs, pos_part, neg_part, ◌≤ℤ◌, ◌-ℤ◌, arith, some, Option, int_laws,
  -ℤ_parts, max_ℤ, leb_ℤ, false,
}
use mella_dashboard.Money.{Amount, Percent, cent, round_currency, round_percent_of}
use mella_dashboard.Money.Rounding.{round_currency_mono, round_currency_close}
use mella_dashboard.Challenge.Types.{
  Floor, negative_infinity, level, DrawdownMode, static, trailing,
}
use mella_dashboard.Challenge.Rules.{max_drawdown_floor, daily_loss_floor}

-- One floor is at most another; a rule that is off has the lowest.
abbrev pub FloorLe : Floor → Floor → Type 0
FloorLe negative_infinity g = Unit {0}
FloorLe (level a) negative_infinity = ⊥
FloorLe (level a) (level b) = a ≤ℤ b

-- A limit that is switched on is a whole positive number of cents.
pub limit_whole :
    (v : Amount) (p : Percent)
    → leb_ℤ (round_percent_of v p) (pos 0) ≡ false
    → (pos cent ≤ℤ round_percent_of v p) × (abs (round_percent_of v p) % cent ≡ 0)
unfolding round_percent_of
limit_whole v p h = ground arith

raise_mono :
    (start low high limit : Amount)
    → low ≤ℤ high
    → round_currency (max_ℤ low start -ℤ limit) ≤ℤ round_currency (max_ℤ high start -ℤ limit)
raise_mono start low high limit h =
    round_currency_mono _ _
      (let e : max_ℤ low start ≤ℤ max_ℤ high start = ground arith in omega int_laws)

-- The trailing floor only rises with the high-water mark.
pub max_drawdown_floor_mono :
    (start low high : Amount) (p : Percent) (mode : Option DrawdownMode)
    → low ≤ℤ high
    → FloorLe (max_drawdown_floor start low p mode) (max_drawdown_floor start high p mode)
unfolding max_drawdown_floor
max_drawdown_floor_mono start low high p mode h =
    ground (arith, raise_mono start low high (round_percent_of start p) h)

lock :
    (start high limit : Amount)
    → pos cent ≤ℤ limit
    → (round_currency (start -ℤ limit) ≤ℤ start)
      × (round_currency (start -ℤ limit) ≤ℤ round_currency (max_ℤ high start -ℤ limit))
lock start high limit h = (
  omega (int_laws, round_currency_close (start -ℤ limit)),
  round_currency_mono _ _ (let e : start ≤ℤ max_ℤ high start = ground arith in omega int_laws),
)

-- The trailing floor is never below the static one.
pub static-le-trailing :
    (start high : Amount) (p : Percent)
    → FloorLe
        (max_drawdown_floor start high p (some static))
        (max_drawdown_floor start high p (some trailing))
unfolding max_drawdown_floor
static-le-trailing start high p =
    ground (arith, limit_whole start p, lock start high (round_percent_of start p))

-- Whatever the mode and the peak, the drawdown floor never passes the starting balance.
pub max_drawdown_floor-le-start :
    (start high : Amount) (p : Percent) (mode : Option DrawdownMode)
    → FloorLe (max_drawdown_floor start high p mode) (level start)
unfolding max_drawdown_floor
max_drawdown_floor-le-start start high p mode =
    ground (arith, limit_whole start p, lock start high (round_percent_of start p))

-- The daily floor is at least half a cent below the day's opening equity.
pub daily_loss_floor-lt-anchor :
    (anchor : Amount) (p : Percent) (f : Amount)
    → daily_loss_floor anchor p ≡ level f
    → pos_part f + neg_part anchor + 5000 ≤ pos_part anchor + neg_part f
unfolding daily_loss_floor
daily_loss_floor-lt-anchor anchor p f h =
    let limit = round_percent_of anchor p in
    ground
      (arith, limit_whole anchor p, round_currency_close (anchor -ℤ limit), -ℤ_parts anchor limit)
