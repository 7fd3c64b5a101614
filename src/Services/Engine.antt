-- ===== src/Services/Engine.antt =====
-- src/lib/services/challengeEngine.ts: the life of a trading account.
pub mod Transitions
pub mod Commands
pub mod Reinstating
pub mod Resets
pub mod Claims
pub mod Outcomes
use mella_dashboard.Base.{
  ℕ, suc, ◌+◌, ◌-◌, ◌*◌, ◌==◌, ltb, pos, ltb_ℤ, leb_ℤ, max_ℤ, ◌+ℤ◌, ◌-ℤ◌, Bool, true, false, not,
  ◌&&◌, Option, none, some, List, [], ◌∷◌, keep, is_some, if◌then◌else◌, lookup, insert,
}
use mella_dashboard.Money.{Amount, Percent, round_currency}
use mella_dashboard.Challenge.Types.{
  AccountStatus, active, passed, failed, funded, suspended, frozen, TemplatePhase, FailureReason,
  ChallengeRuleSnapshot, ChallengeDecisionInput, ChallengeDecision,
}
use mella_dashboard.Challenge.Rules.{
  determine_challenge_transition, target_amount, reaches, is_active, is_funded_phase,
}
use mella_dashboard.Challenge.Consistency.{consistency_check}
use mella_dashboard.Services.Reset.{current_day_start, needs_daily_reset, day_ms, minute_ms}
use mella_dashboard.Services.Store.{
  PhaseRules, TemplateSnapshot, own_rules, next_phase_snapshot, RecordedReason, by_rule,
  TradingAccount, Trade, EquitySnapshot, Db, Note, status_auto_transition, phase_advanced,
  told_user, certificate, is_open, challenge_passed_certificate, funded_certificate, Outcome, done,
  refused, not_found, conflict,
}
use mella_dashboard.Services.Metrics.{
  sum_of, trades_of, closed_trades_of, aggregate_trades, daily_net_profits,
  sum_open_position_floating,
}

-- `durationDays` is a period only when it is set and not 0.
abbrev pub end_of_period : Option ℕ → ℕ → Option ℕ
end_of_period none start = none
end_of_period (some days) start = if days == 0 then none else some (start + days * day_ms)

-- The status in which an account of the phase trades.
abbrev pub initial_status : TemplatePhase → AccountStatus
initial_status p = if is_funded_phase p then funded else active

-- The columns of `newAccountColumns` written over an account.
unfoldable pub new_account_columns : TemplateSnapshot → ℕ → TradingAccount → TradingAccount
new_account_columns snapshot now a =
    let r = own_rules snapshot in
    record a {
      starting_balance = r.starting_balance;
      balance = r.starting_balance;
      equity = r.starting_balance;
      high_water_mark = r.starting_balance;
      daily_anchor_balance = r.starting_balance;
      daily_anchor_date = current_day_start r.reset_time now;
      expires_at = end_of_period r.duration_days now;
      realized_pnl = pos 0;
      trade_count = 0;
      win_count = 0;
      loss_count = 0;
      gross_profit = pos 0;
      gross_loss = pos 0;
      margin_used = pos 0;
    }

-- `ensureAggregatesBackfilled`, on the account's row.
unfoldable pub backfill_aggregates : ℕ → List Trade → TradingAccount → TradingAccount
backfill_aggregates id trades a =
    let agg = aggregate_trades id (own_rules a.snapshot).reset_time trades in
    if ltb 0 a.trade_count then a else if agg.closed == 0 then a else record a {
      realized_pnl = round_currency agg.realized;
      balance = round_currency (a.starting_balance +ℤ agg.realized);
      trade_count = agg.closed;
      win_count = agg.wins;
      loss_count = agg.losses;
      gross_profit = round_currency agg.gross_profit;
      gross_loss = round_currency agg.gross_loss;
    }

-- The snapshots are newest first, so the first in the window is the latest at or before the boundary.
abbrev pub head? {ℓ} : {A : Type ℓ} → List A → Option A
head? [] = none
head? (x ∷ xs) = some x

abbrev pub closed_since : ℕ → Trade → Bool
closed_since boundary t = elim t.close_time [ some at ↦ not (ltb at boundary) | none ↦ false ]

unfoldable pub reconstruct_boundary_equity : ℕ → Amount → ℕ → Db → Amount
reconstruct_boundary_equity id current_balance boundary db =
    let recent =
      keep
        (λ s.
          s.account_id == id
          && not (ltb boundary s.at)
          && not (ltb s.at (boundary - 15 * minute_ms)))
        db.snapshots in
    let since = keep (closed_since boundary) (closed_trades_of id db.trades) in
    elim (head? recent) [
      | some s ↦ round_currency s.equity
      | none ↦ round_currency (current_balance -ℤ sum_of (λ t. t.net_profit) since)
    ]

-- The new values of the money columns of an account.
unfoldable pub refresh : ℕ → ℕ → Db → TradingAccount → TradingAccount
refresh now id db a =
    let r = (own_rules a.snapshot).reset_time in
    let balance = round_currency a.balance in
    let legacy_open = (aggregate_trades id r db.trades).unrealized_legacy in
    let equity =
      round_currency (balance +ℤ legacy_open +ℤ sum_open_position_floating id db.positions) in
    let boundary = current_day_start r now in
    let new_day = needs_daily_reset a.daily_anchor_date r now in
    record a {
      balance = balance;
      equity = equity;
      high_water_mark = if ltb_ℤ a.high_water_mark equity then equity else a.high_water_mark;
      daily_anchor_balance =
          if new_day
          then reconstruct_boundary_equity id balance boundary db
          else a.daily_anchor_balance;
      daily_anchor_date = if new_day then boundary else a.daily_anchor_date;
      expires_at = elim a.expires_at [
        | some at ↦ some at
        | none ↦ end_of_period (own_rules a.snapshot).duration_days a.created_at
      ];
    }

abbrev pub is_past : Option ℕ → ℕ → Bool
is_past none now = false
is_past (some at) now = ltb at now

abbrev pub positive : Option Percent → Bool
positive none = false
positive (some p) = ltb_ℤ (pos 0) p

-- What `evaluateAccount` hands to the rules, of a refreshed account.
unfoldable pub decision_input : ℕ → ℕ → Db → TradingAccount → ChallengeDecisionInput
decision_input now id db a =
    let rules = own_rules a.snapshot in
    let needs_trading_days =
      is_some rules.rules.profit_target && not (is_funded_phase a.phase) && is_active a.status in
    let asks_consistency =
      needs_trading_days
      && positive rules.consistency_requirement
      && reaches (round_currency a.realized_pnl)
          (target_amount a.starting_balance rules.rules.profit_target) in
    let check =
      consistency_check (daily_net_profits id rules.reset_time db.trades)
        rules.consistency_requirement in
    record {
      status = a.status;
      phase = a.phase;
      starting_balance = a.starting_balance;
      net_pnl = a.realized_pnl;
      equity = a.equity;
      high_water_mark = a.high_water_mark;
      daily_anchor_balance = a.daily_anchor_balance;
      trading_days =
          if needs_trading_days
          then (aggregate_trades id rules.reset_time db.trades).trading_days
          else 0;
      snapshot = rules.rules;
      is_expired = is_past a.expires_at now;
      consistency = if asks_consistency then some check.ok else none;
    }
