-- ===== src/Services/Engine/Reinstating.antt =====
-- What an evaluation decides about an account that an administrator has just reinstated.
use mella_dashboard.Base.{ℕ, ◌%◌, ◌≡◌, abs, ◌-ℤ◌, Option, some, true, false, arith, max_ℤ, -ℤ_parts}
use mella_dashboard.Money.{Amount, Percent, cent, round_percent_of}
use mella_dashboard.Money.Rounding.{round_currency-whole, round_currency_close}
use mella_dashboard.Challenge.Types.{AccountStatus, DrawdownMode, static, le_floor}
use mella_dashboard.Challenge.Rules.{
  determine_challenge_transition, max_drawdown_floor, daily_loss_floor,
}
use mella_dashboard.Challenge.Rules.Floors.{limit_whole}
use mella_dashboard.Services.Store.{TradingAccount, own_rules, Db}
use mella_dashboard.Services.Engine.{decision_input}
use mella_dashboard.Services.Engine.Commands.{set_status, is_trading}

-- With the peak moved to the equity, the trailing floor stops the account exactly where the static
-- one does.
dd_at_peak :
    (start equity : Amount) (p : Percent) (mode : Option DrawdownMode)
    → le_floor equity (max_drawdown_floor start (max_ℤ equity start) p mode)
      ≡ le_floor equity (max_drawdown_floor start start p (some static))
unfolding max_drawdown_floor
dd_at_peak start equity p mode =
    let limit = round_percent_of start p in
    ground (arith, limit_whole start p, round_currency_close (start -ℤ limit), -ℤ_parts start limit)

daily_at_anchor :
    (equity : Amount) (p : Percent) → le_floor equity (daily_loss_floor equity p) ≡ false
unfolding daily_loss_floor
daily_at_anchor equity p =
    let limit = round_percent_of equity p in
    ground
      (arith, limit_whole equity p, round_currency_close (equity -ℤ limit), -ℤ_parts equity limit)

-- For an account whose equity is in whole cents, put back to trading by hand: the next evaluation at
-- that equity reports no daily breach, and reports a drawdown breach exactly when the equity is at or
-- below the static floor, whatever the drawdown mode.
pub set_status-breaches :
    (t now id : ℕ) (status : AccountStatus) (reason : Option ℕ) (a : TradingAccount) (db : Db)
    → abs a.equity % cent ≡ 0
    → is_trading status ≡ true
    → let rules = (own_rules a.snapshot).rules in
      let d =
        determine_challenge_transition (decision_input now id db (set_status t status reason a)) in
      (d.dd_breach
        ≡ le_floor a.equity (
            max_drawdown_floor a.starting_balance a.starting_balance rules.max_drawdown
              (some static)))
      × (d.daily_breach ≡ false)
unfolding set_status determine_challenge_transition decision_input
set_status-breaches t now id status reason a db w h = ground (
  arith,
  round_currency-whole a.equity w,
  daily_at_anchor a.equity (own_rules a.snapshot).rules.daily_drawdown,
  dd_at_peak a.starting_balance a.equity (own_rules a.snapshot).rules.max_drawdown
      (own_rules a.snapshot).rules.drawdown_mode,
)
