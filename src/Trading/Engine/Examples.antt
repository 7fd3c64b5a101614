-- ===== src/Trading/Engine/Examples.antt =====
-- One account with one position, at one price.
mod Clients
use mella_dashboard.Base.{
  ◌≡◌, ◌≢◌, ◌↔◌, ◌⊎◌, inl, refl, pos, ◌+ℤ◌, ◌-ℤ◌, ◌*ℤ◌, neg_ℤ, ◌≤ℤ◌, max_ℤ, Bool, true, false,
  Option, none, some, [], ◌∷◌, ◌==◌, ◌+◌, any, lookup, insert,
}
use mella_dashboard.Money.{round_currency, round_currency_quot, round_half_up, round_percent_of}
use mella_dashboard.Challenge.Types.{
  active, phase_1, static, failed, max_drawdown, ChallengeDecisionInput,
}
use mella_dashboard.Challenge.Rules.{determine_challenge_transition, max_drawdown_floor}
use mella_dashboard.Trading.Pricing.{
  buy, market, finite, stop_loss, gross_pnl_quote, convert, mark_price, check_stops,
  stop_exit_price,
}
use mella_dashboard.Trading.Router.Symbol.{Tick}
use mella_dashboard.Trading.Fx.{Crosses, Converter}
use mella_dashboard.Trading.Engine.{
  Instrument, EnginePosition, EngineRules, EngineAccount, Tracked, Context, sum_floating, recompute,
  breach_reason, dd_floor, holds_stale_symbol, account_on_tick, close_position, execute_breach,
  fire, review, check_breach, positions_on_tick, position_on_tick, pendings_on_tick, mark_position,
  stop_fired,
}
use mella_dashboard.Trading.Engine.Equity.{recompute_lem}
use mella_dashboard.Trading.Engine.Once.{run, closes, triggers, breaches, run-once}
use mella_dashboard.Trading.Engine.Breaching.{
  watched, breach_reason-decision, account_on_tick-breaching,
}
use mella_dashboard.Trading.Engine.Market.{Sessions, Market, Engine, on_tick, fresh_quote, quote_of}
use mella_dashboard.Trading.Engine.Market.Freshness.{on_tick-fresh_quote}

abbrev pub birr : Instrument
birr = record {
  symbol = 1;
  is_crypto = false;
  currencies = record { base = 4; quote = 9 };
  digits = 5;
  contract_size = 1_000_000_000;
  volume_rules = record {
    min_volume = 100_000_000;
    max_volume = 500_000_000_000;
    volume_step = 100_000_000;
  };
  spread_markup_points = pos 0;
  enabled = true;
}

-- One lot, bought at 1.2 with a stop-loss at 1.1.
abbrev bought : EnginePosition
bought = record {
  id = 7;
  symbol = 1;
  side = buy;
  volume = pos 10_000_000_000;
  entry_price = pos 12_000_000_000;
  stop_loss = some (pos 11_000_000_000);
  take_profit = none;
  margin_used = pos 1_000_000_000;
  current_price = none;
  floating_pnl = pos 0;
  closing = false;
  dirty = false;
}

abbrev rules : EngineRules
rules = record {
  risk = record {
    max_drawdown = pos 1000;
    daily_drawdown = pos 500;
    profit_target = some (pos 1000);
    min_trading_days = 0;
    drawdown_mode = some static;
  };
  leverage = 100;
  max_positions = some 5;
  max_position_size = none;
  weekend_holding_allowed = none;
  overnight_holding_allowed = none;
  news_trading_allowed = none;
}

-- 100 000 in the account, half of it lost by the price below.
abbrev pub owner : EngineAccount
owner = record {
  id = 3;
  user = 2;
  status = active;
  snapshot = rules;
  starting_balance = pos 100_000_000_000;
  balance = pos 100_000_000_000;
  high_water_mark = pos 100_000_000_000;
  daily_anchor_balance = pos 100_000_000_000;
  margin_used = pos 1_000_000_000;
  positions = bought ∷ [];
  pending = [];
  equity = pos 100_000_000_000;
  floating = pos 0;
  dirty = false;
  breaching = false;
}

abbrev tracked : Tracked
tracked = record { account = owner; queue = [] }

-- The price has fallen to 0.7.
abbrev fallen : Context
fallen = record {
  symbol = 1;
  instrument = birr;
  rate = some (record { num = 1; den = 1 });
  quote = record { bid = pos 7_000_000_000; ask = pos 7_001_000_000 };
  is_open = true;
  stale = [];
  restricted = λ r. false;
}

-- The stop closes the position, and the loss of 50 000 breaches the account.
jobs_of_the_fall :
    (account_on_tick fallen tracked).queue
    ≡ close_position 7 (some (pos 11_000_000_000)) stop_loss fallen.quote
      ∷ execute_breach max_drawdown (pos 50_000_000_000)
      ∷ []
unfolding account_on_tick fire review recompute check_breach breach_reason holds_stale_symbol
    positions_on_tick position_on_tick pendings_on_tick mark_position stop_fired check_stops
    sum_floating dd_floor max_drawdown_floor gross_pnl_quote convert stop_exit_price round_currency
    round_percent_of ◌+ℤ◌ ◌-ℤ◌ ◌*ℤ◌
jobs_of_the_fall = refl

run-once_example :
    (closes 7 (run (fallen ∷ fallen ∷ []) tracked) ≡ closes 7 tracked)
    × (triggers 7 (run (fallen ∷ fallen ∷ []) tracked) ≡ triggers 7 tracked)
    × (breaches (run (fallen ∷ fallen ∷ []) tracked) ≡ breaches tracked)
run-once_example = run-once (fallen ∷ fallen ∷ []) 7 tracked

abbrev decided : ChallengeDecisionInput
decided = record {
  status = active;
  phase = phase_1;
  starting_balance = pos 0;
  net_pnl = pos 0;
  equity = pos 0;
  high_water_mark = pos 0;
  daily_anchor_balance = pos 0;
  trading_days = 0;
  snapshot = rules.risk;
  is_expired = false;
  consistency = none;
}

-- The account after the fall.
abbrev ruined : EngineAccount
ruined = record owner { equity = pos 50_000_000_000 }

breach_reason-decision_example :
    let d = determine_challenge_transition (watched ruined decided) in
    ((breach_reason ruined ≡ none) ↔ ((d.dd_breach ≡ false) × (d.daily_breach ≡ false)))
    × (breach_reason ruined ≢ none → d.failure_reason ≡ breach_reason ruined)
    × (breach_reason ruined ≢ none → d.next_status ≡ failed)
breach_reason-decision_example = breach_reason-decision ruined decided (inl refl)

account_on_tick-breaching_example :
    let a = (account_on_tick fallen tracked).account in
    (fallen.is_open ≡ true
      → holds_stale_symbol fallen.stale tracked.account ≡ false
      → (a.breaching ≡ true) ↔ (breach_reason a ≢ none))
    × ((fallen.is_open ≡ false) ⊎ (holds_stale_symbol fallen.stale tracked.account ≡ true)
        → a.breaching ≡ false)
account_on_tick-breaching_example = account_on_tick-breaching fallen tracked refl refl
