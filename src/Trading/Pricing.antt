-- ===== src/Trading/Pricing.antt =====
-- src/trading/math.ts. A price is an integer number of 10^-10 of the quote currency, a volume one of
-- 10^-10 lots; the source's doubles are read as these exact values. A number that comes over the wire
-- may also be one that `Number.isFinite` refuses.
pub mod Stops
pub mod Pending
pub mod Profit
pub mod Volume
pub mod Markup
mod Examples
use mella_dashboard.Base.{
  ℕ, zero, suc, ◌+◌, ◌-◌, ◌*◌, ◌/◌, ◌%◌, ◌^◌, ℤ, pos, negsuc, neg, abs, min, ltb_ℤ, leb_ℤ, max_ℤ,
  min_ℤ, ◌+ℤ◌, ◌-ℤ◌, ◌*ℤ◌, neg_ℤ, Bool, true, false, ◌||◌, ◌&&◌, not, Option, none, some, ltb, leb,
  ◌==◌, if◌then◌else◌,
}
use mella_dashboard.Money.{Amount, round_currency_quot, round_half_up}

abbrev pub Price : Type 0
Price = ℤ

abbrev pub Volume : Type 0
Volume = ℤ

pub data JsNumber : Type 0 where
  finite : ℤ → JsNumber
  not_finite : JsNumber

pub data Side : Type 0 where
  buy sell : Side

pub data OrderKind : Type 0 where
  market limit stop : OrderKind

pub record Quote : Type 0 where
  pub bid : Price
  pub ask : Price

-- `direction(side)` as a factor.
abbrev pub signed : Side → ℤ → ℤ
signed buy v = v
signed sell v = neg_ℤ v

-- One point: 10^-digits of the quote currency. `digits` is at most 10.
unfoldable pub point : ℕ → ℕ
point digits = 10 ^ (10 - digits)

-- `Math.round(v / step) * step`: half towards +∞.
unfoldable pub round_to : ℕ → ℤ → ℤ
unfolding round_half_up
round_to step (pos n) = pos (round_half_up n step * step)
round_to step (negsuc n) = neg ((2 * suc n + step - 1) / (2 * step) * step)

unfoldable pub round_price : Price → ℕ → Price
round_price price digits = round_to (point digits) price

-- A hundredth of a lot.
abbrev pub hundredth : ℕ
hundredth = 100_000_000

unfoldable pub round_volume : Volume → Volume
round_volume v = round_to hundredth v

unfoldable pub fill_price : Side → Quote → Price
fill_price buy q = q.ask
fill_price sell q = q.bid

unfoldable pub mark_price : Side → Quote → Price
mark_price buy q = q.bid
mark_price sell q = q.ask

-- `markupPoints` is a whole number of points, so half of it is exact for at most 9 digits.
unfoldable pub apply_markup : Quote → ℤ → ℕ → Quote
unfolding round_price
apply_markup q markup_points digits =
    let half = pos (abs markup_points * point digits / 2) in
    if leb_ℤ markup_points (pos 0) then record { bid = q.bid; ask = q.ask } else record {
      bid = round_price (max_ℤ (pos 0) (q.bid -ℤ half)) digits;
      ask = round_price (q.ask +ℤ half) digits;
    }

-- In the quote currency, times 10^24: 10^10 for the price, 10^10 for the volume and 10^4 for the
-- contract size, which is given in ten-thousandths.
unfoldable pub gross_pnl_quote : Side → Price → Price → Volume → ℕ → ℤ
gross_pnl_quote side entry exit volume contract_size =
    signed side ((exit -ℤ entry) *ℤ volume *ℤ pos contract_size)

unfoldable pub notional_quote : Volume → ℕ → Price → ℤ
notional_quote volume contract_size price = volume *ℤ pos contract_size *ℤ price

-- Account-currency units for one unit of the quote currency, as a fraction.
pub record Rate : Type 0 where
  pub num : ℕ
  pub den : ℕ

-- `roundCurrency(amount * rate)` for an amount times 10^24.
unfoldable pub convert : ℤ → Rate → Amount
unfolding round_currency_quot
convert amount rate = round_currency_quot (amount *ℤ pos rate.num) (10 ^ 18 * rate.den)

unfoldable pub required_margin : Volume → ℕ → Price → Rate → ℕ → Amount
unfolding convert
required_margin volume contract_size price rate leverage =
    let lev = if ltb 0 leverage then leverage else 1 in
    convert (notional_quote volume contract_size price)
      (record { num = rate.num; den = rate.den * lev })

pub data StopTrigger : Type 0 where
  stop_loss take_profit : StopTrigger

-- `level != null && test(level)`.
abbrev pub holds_at : (Price → Bool) → Option Price → Bool
holds_at test none = false
holds_at test (some level) = test level

unfoldable pub check_stops : Side → Quote → Option Price → Option Price → Option StopTrigger
unfolding mark_price
check_stops buy q sl tp =
    let mark = mark_price buy q in
    if holds_at (λ l. leb_ℤ mark l) sl
    then some stop_loss
    else if holds_at (λ l. leb_ℤ l mark) tp
    then some take_profit
    else none
check_stops sell q sl tp =
    let mark = mark_price sell q in
    if holds_at (λ l. leb_ℤ l mark) sl
    then some stop_loss
    else if holds_at (λ l. leb_ℤ mark l) tp
    then some take_profit
    else none

-- The cast `as number` of a level that is null cannot be reached after `checkStops`.
unfoldable pub stop_exit_price : StopTrigger → Option Price → Option Price → Option Price
stop_exit_price stop_loss sl tp = sl
stop_exit_price take_profit sl tp = tp

unfoldable pub pending_triggered : Side → OrderKind → Price → Quote → Bool
pending_triggered side market price q = true
pending_triggered buy limit price q = leb_ℤ q.ask price
pending_triggered buy stop price q = leb_ℤ price q.ask
pending_triggered sell limit price q = leb_ℤ price q.bid
pending_triggered sell stop price q = leb_ℤ q.bid price

unfoldable pub pending_fill_price : Side → OrderKind → Price → Quote → Price
unfolding fill_price
pending_fill_price buy limit price q = min_ℤ price q.ask
pending_fill_price sell limit price q = max_ℤ price q.bid
pending_fill_price side market price q = fill_price side q
pending_fill_price side stop price q = fill_price side q

pub data RejectCode : Type 0 where
  invalid_volume invalid_price invalid_stop_loss invalid_take_profit max_positions : RejectCode
  max_position_size insufficient_margin no_fx_path market_halted weekend_closed : RejectCode
  overnight_closed news_window unknown_symbol account_not_tradable forbidden not_found : RejectCode
  internal : RejectCode

pub record VolumeRules : Type 0 where
  pub min_volume : ℕ
  pub max_volume : ℕ
  pub volume_step : ℕ

-- `step` of `validateVolume`: 0.01 lots where none is set.
abbrev pub step_of : VolumeRules → ℕ
step_of r = if ltb 0 r.volume_step then r.volume_step else hundredth

-- `Math.abs(steps - Math.round(steps)) > 1e-6`: the distance to the nearest multiple of the step.
abbrev pub off_grid : ℕ → ℕ → Bool
off_grid step v = ltb step (min (v % step) (step - v % step) * 1_000_000)

-- 1e-9 lots are ten units.
unfoldable pub validate_volume : JsNumber → VolumeRules → Option RejectCode
validate_volume not_finite r = some invalid_volume
validate_volume (finite (negsuc n)) r = some invalid_volume
validate_volume (finite (pos v)) r =
    if leb v 0
    then some invalid_volume
    else if ltb (v + 10) r.min_volume || ltb (r.max_volume + 10) v
    then some invalid_volume
    else if off_grid (step_of r) v
    then some invalid_volume
    else none

-- A level that may be null or undefined, and must be finite, positive and on the right side.
abbrev pub bad_level : (Price → Bool) → Option JsNumber → Bool
bad_level wrong none = false
bad_level wrong (some not_finite) = true
bad_level wrong (some (finite l)) = leb_ℤ l (pos 0) || wrong l

unfoldable pub validate_stops : Side → Price → Option JsNumber → Option JsNumber → Option RejectCode
validate_stops buy reference sl tp =
    if bad_level (λ l. leb_ℤ reference l) sl
    then some invalid_stop_loss
    else if bad_level (λ l. leb_ℤ l reference) tp
    then some invalid_take_profit
    else none
validate_stops sell reference sl tp =
    if bad_level (λ l. leb_ℤ l reference) sl
    then some invalid_stop_loss
    else if bad_level (λ l. leb_ℤ reference l) tp
    then some invalid_take_profit
    else none

-- The tests on the side of the market; a MARKET order passes them all.
abbrev pub wrong_side : Side → OrderKind → Price → Quote → Bool
wrong_side buy limit price q = leb_ℤ q.ask price
wrong_side buy stop price q = leb_ℤ price q.ask
wrong_side sell limit price q = leb_ℤ price q.bid
wrong_side sell stop price q = leb_ℤ q.bid price
wrong_side buy market price q = false
wrong_side sell market price q = false

unfoldable pub validate_pending_price :
    Side → OrderKind → Option JsNumber → Quote → Option RejectCode
validate_pending_price side kind none q = some invalid_price
validate_pending_price side kind (some not_finite) q = some invalid_price
validate_pending_price side kind (some (finite price)) q =
    if leb_ℤ price (pos 0)
    then some invalid_price
    else if wrong_side side kind price q
    then some invalid_price
    else none
