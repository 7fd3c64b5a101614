-- ===== src/Challenge/Rules.antt =====
-- `maxDrawdownFloor`, `dailyLossFloor` and `determineChallengeTransition` of
-- src/lib/services/challengeRules.ts.
pub mod Floors
pub mod Decision
pub mod Exact
use mella_dashboard.Base.{
  Bool, true, false, not, ◌&&◌, Option, none, some, pos, ltb_ℤ, leb_ℤ, leb, max_ℤ, min_ℤ, ◌-ℤ◌,
  if◌then◌else◌,
}
use mella_dashboard.Money.{Amount, Percent, round_currency, round_percent_of}
use mella_dashboard.Challenge.Types.{
  AccountStatus, active, passed, failed, funded, suspended, frozen, TemplatePhase, phase_1, phase_2,
  funded_phase, DrawdownMode, static, trailing, Floor, negative_infinity, level, le_floor,
  FailureReason, max_drawdown, daily_loss, expired, ChallengeDecisionInput, ChallengeDecision,
}

-- The membership test on `AUTO_EVALUATION_TERMINAL_STATUSES`.
abbrev pub is_terminal : AccountStatus → Bool
is_terminal suspended = true
is_terminal frozen = true
is_terminal failed = true
is_terminal passed = true
is_terminal active = false
is_terminal funded = false

abbrev pub is_trailing : Option DrawdownMode → Bool
is_trailing (some trailing) = true
is_trailing (some static) = false
is_trailing none = false

unfoldable pub max_drawdown_floor : Amount → Amount → Percent → Option DrawdownMode → Floor
max_drawdown_floor starting_balance high_water_mark percent mode =
    let limit = round_percent_of starting_balance percent in
    if leb_ℤ limit (pos 0)
    then negative_infinity
    else if is_trailing mode
    then level
        (min_ℤ (round_currency (max_ℤ high_water_mark starting_balance -ℤ limit)) starting_balance)
    else level (round_currency (starting_balance -ℤ limit))

unfoldable pub daily_loss_floor : Amount → Percent → Floor
daily_loss_floor anchor percent =
    let limit = round_percent_of anchor percent in
    if leb_ℤ limit (pos 0) then negative_infinity else level (round_currency (anchor -ℤ limit))

-- `targetAmount`: null when the template has no positive target.
unfoldable pub target_amount : Amount → Option Percent → Option Amount
target_amount starting_balance none = none
target_amount starting_balance (some p) =
    if ltb_ℤ (pos 0) p then some (round_percent_of starting_balance p) else none

abbrev pub reaches : Amount → Option Amount → Bool
reaches pnl none = false
reaches pnl (some target) = leb_ℤ target pnl

abbrev pub is_active : AccountStatus → Bool
is_active active = true
is_active passed = false
is_active failed = false
is_active funded = false
is_active suspended = false
is_active frozen = false

abbrev pub is_funded_phase : TemplatePhase → Bool
is_funded_phase funded_phase = true
is_funded_phase phase_1 = false
is_funded_phase phase_2 = false

abbrev pub consistency_ok : Option Bool → Bool
consistency_ok none = true
consistency_ok (some ok) = ok

-- The chain of conditions that sets `nextStatus` and `failureReason`.
abbrev pub next :
    ChallengeDecisionInput → Bool → Bool → Bool → Bool → AccountStatus × Option FailureReason
next input can_auto_evaluate dd_breach daily_breach meets_all =
    let challenge = not (is_funded_phase input.phase) && is_active input.status in
    if can_auto_evaluate
    then if dd_breach
      then (failed, some max_drawdown)
      else if daily_breach
      then (failed, some daily_loss)
      else if challenge && meets_all
      then (passed, none)
      else if input.is_expired && challenge
      then (failed, some expired)
      else (input.status, none)
    else (input.status, none)

unfoldable pub determine_challenge_transition : ChallengeDecisionInput → ChallengeDecision
determine_challenge_transition input =
    let can_auto_evaluate = not (is_terminal input.status) in
    let equity_c = round_currency input.equity in
    let net_pnl_c = round_currency input.net_pnl in
    let dd_floor =
      max_drawdown_floor input.starting_balance input.high_water_mark input.snapshot.max_drawdown
        input.snapshot.drawdown_mode in
    let dd_breach = can_auto_evaluate && le_floor equity_c dd_floor in
    let dl_floor = daily_loss_floor input.daily_anchor_balance input.snapshot.daily_drawdown in
    let daily_breach = can_auto_evaluate && le_floor equity_c dl_floor in
    let meets_target =
      reaches net_pnl_c (target_amount input.starting_balance input.snapshot.profit_target) in
    let meets_min_days = leb input.snapshot.min_trading_days input.trading_days in
    let meets_consistency = consistency_ok input.consistency in
    let (next_status, failure_reason) =
      next input can_auto_evaluate dd_breach daily_breach
        (meets_target && meets_min_days && meets_consistency) in
    record {
      next_status = next_status;
      can_auto_evaluate = can_auto_evaluate;
      dd_breach = dd_breach;
      daily_breach = daily_breach;
      meets_target = meets_target;
      meets_min_days = meets_min_days;
      meets_consistency = meets_consistency;
      failure_reason = failure_reason;
      max_drawdown_floor = dd_floor;
      daily_loss_floor = dl_floor;
    }
