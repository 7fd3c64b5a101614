-- ===== src/Services/Examples.antt =====
-- A small database: one account, one open position; and the theorems on its clock and its days.
mod Engine
mod Ledger
use mella_dashboard.Base.{
  ℕ, ◌+◌, ◌*◌, ◌≤◌, ◌<◌, ◌≡◌, ◌↔◌, refl, pos, ◌+ℤ◌, ◌-ℤ◌, Bool, true, false, Option, none, some,
  List, [], ◌∷◌, arith, lookup, insert, length, suc, any, ◌≢◌, ◌%◌, map, Bool-cases, inl, inr, sym,
  ◌∙◌, ◌==◌,
}
use mathlib.Core.Path.{subst}
use mathlib.Core.Option.{some-injective}
use mella_dashboard.Money.{Amount, round_currency, round_percent_of}
use mella_dashboard.Challenge.Types.{
  active, passed, failed, phase_1, static, max_drawdown, daily_loss, le_floor,
}
use mella_dashboard.Challenge.Rules.{
  target_amount, determine_challenge_transition, max_drawdown_floor, daily_loss_floor,
}
use mella_dashboard.Trading.Pricing.{buy, market, stop}
use mella_dashboard.Services.Reset.{
  ResetTime, current_day_start, next_day_start, needs_daily_reset, trading_day_key, day_ms,
  minute_ms, time_of_day,
}
use mella_dashboard.Services.Reset.Boundary.{
  InRange, current_day_start_lem, trading_day_key_iff, needs_daily_reset_iff,
}
use mella_dashboard.Services.Store.{
  PhaseRules, TemplateSnapshot, last_phase, TradingAccount, Position, opened, Db, manual, Order,
  filled, done, Trade, closed, is_open, own_rules,
}
use mella_dashboard.Services.Metrics.{trades_of, sum_open_position_floating}
use mella_dashboard.Services.Engine.{
  refresh, decision_input, backfill_aggregates, reconstruct_boundary_equity,
}
use mella_dashboard.Challenge.Consistency.{consistency_check}
use mella_dashboard.Services.Metrics.{
  aggregate_trades, daily_net_profits, sum_of, group_by_day, add_to_day,
}
use mella_dashboard.Services.Metrics.Days.{Ascending, group_by_day_lem}
use mella_dashboard.Services.Ledger.Anchors.{capture_daily_anchor_once}
use mella_dashboard.Services.Ledger.Marks.{capture_daily_anchor}
use mella_dashboard.Services.Engine.Transitions.{
  update_account, numeric_fields, advance_to_next_phase,
}
use mella_dashboard.Services.Engine.Commands.{
  Evaluation, read_evaluation, commit_evaluation, evaluate_account, fail_account_for_breach,
  set_status, reset_account, reset_row,
}
use mella_dashboard.Services.Engine.Claims.{commit_evaluation_once}
use mella_dashboard.Services.Engine.Outcomes.{evaluate_account_lem, fail_account_for_breach_idem}
use mella_dashboard.Services.Engine.Reinstating.{set_status-breaches}
use mella_dashboard.Services.Engine.Resets.{reset_account_lem}
use mella_dashboard.Services.Ledger.{OpenPositionInput, open_position, find_order}
use mella_dashboard.Services.Ledger.Closing.{
  ClosePositionInput, close_amounts, closed_position, write_close, close_transaction,
}
use mella_dashboard.Services.Ledger.Money.{
  ledger_total, IsBalanced, AllBalanced, write_close-AllBalanced,
}
use mella_dashboard.Services.Ledger.Replay.{
  close_transaction_once, closed_position-volume, open_position_once, open_position-existing,
}

-- Midnight in Addis Ababa.
abbrev midnight : ResetTime
midnight = record { hour = 0; minute = 0; ahead = 180; behind = 0 }

-- 10 000 of the account currency, 10% drawdown, 5% a day, 8% target.
abbrev pub rules : PhaseRules
rules = record {
  template_id = 1;
  phase = phase_1;
  starting_balance = pos 10_000_000_000;
  rules = record {
    max_drawdown = pos 1000;
    daily_drawdown = pos 500;
    profit_target = some (pos 800);
    min_trading_days = 0;
    drawdown_mode = some static;
  };
  duration_days = some 30;
  reset_time = midnight;
  consistency_requirement = none;
  profit_split = none;
  next_phase_id = none;
}

abbrev second_phase : PhaseRules
second_phase = record rules { template_id = 2 }

-- An account that has made its target.
abbrev pub account : TradingAccount
account = record {
  user_id = 5;
  snapshot = TemplateSnapshot.phase_then rules (last_phase second_phase);
  phase = phase_1;
  status = active;
  previous_account = none;
  starting_balance = pos 10_000_000_000;
  balance = pos 10_800_000_000;
  equity = pos 10_800_000_000;
  high_water_mark = pos 10_800_000_000;
  daily_anchor_balance = pos 10_700_000_000;
  daily_anchor_date = 1_900_000_000_000;
  realized_pnl = pos 800_000_000;
  trade_count = 3;
  win_count = 3;
  loss_count = 0;
  gross_profit = pos 800_000_000;
  gross_loss = pos 0;
  margin_used = pos 50_000_000;
  created_at = 1_899_000_000_000;
  expires_at = none;
  passed_at = none;
  failed_at = none;
  funded_at = none;
  status_changed_at = 1_899_000_000_000;
  last_trade_at = none;
  failure_reason = none;
}

-- Half a lot, bought.
abbrev position : Position
position = record {
  account_id = 3;
  symbol = 7;
  side = buy;
  volume = 5_000_000_000;
  entry_price = pos 11_000_000_000;
  stop_loss = none;
  take_profit = none;
  margin_used = pos 50_000_000;
  current_price = pos 11_000_000_000;
  floating_pnl = pos 0;
  status = opened;
  opened_at = 1_899_500_000_000;
  closed_at = none;
  close_price = none;
  close_reason = none;
}

abbrev pub db : Db
db = record {
  templates = [];
  accounts = (3, account) ∷ [];
  positions = (4, position) ∷ [];
  trades = [];
  orders = [];
  ledger = [];
  snapshots = [];
  notes = [];
  next_id = 9;
}

abbrev pub now : ℕ
now = 1_900_000_000_000

found : lookup 3 db.accounts ≡ some account
unfolding lookup
found = refl

now-InRange : InRange midnight now
now-InRange = omega arith

later-InRange : InRange midnight (now + day_ms)
later-InRange = omega arith

needs_daily_reset_iff_example :
    (needs_daily_reset (current_day_start midnight now) midnight (now + day_ms) ≡ true)
    ↔ (trading_day_key now midnight < trading_day_key (now + day_ms) midnight)
needs_daily_reset_iff_example =
    needs_daily_reset_iff midnight now (now + day_ms) now-InRange later-InRange

abbrev trade : ℕ → Amount → Trade
trade at net = record {
  id = at;
  account_id = 3;
  position_id = none;
  volume = 1_000_000_000;
  entry_price = pos 11_000_000_000;
  exit_price = pos 11_000_000_000;
  open_time = at;
  close_time = some at;
  profit = net;
  commission = pos 0;
  swap = pos 0;
  net_profit = net;
  status = closed;
  archived_at = none;
}

abbrev trades : List Trade
trades =
    trade (now + day_ms) (pos 70_000) ∷ trade now (pos 20_000) ∷ trade (now + 5) (pos 10_000) ∷ []

two_days : map (λ g. g.1) (group_by_day midnight trades) ≡ pos 30_000 ∷ pos 70_000 ∷ []
unfolding group_by_day trading_day_key add_to_day ◌+ℤ◌
two_days = refl
