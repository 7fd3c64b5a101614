-- ===== src/Trading/Engine/Examples/Clients.antt =====
-- A price that ends a halt, and an order that is accepted after it.
use mella_dashboard.Base.{
  ◌≡◌, ◌↔◌, refl, pos, ◌-ℤ◌, ◌*ℤ◌, true, false, none, some, [], ◌∷◌, lookup, insert,
}
use mella_dashboard.Money.{round_currency}
use mella_dashboard.Trading.Pricing.{
  buy, market, finite, fill_price, round_volume, validate_volume, validate_stops, required_margin,
  convert, notional_quote, round_to, apply_markup,
}
use mella_dashboard.Trading.Router.Symbol.{Tick}
use mella_dashboard.Trading.Fx.{Crosses, rate, update_mid}
use mella_dashboard.Trading.Engine.Market.{
  Sessions, EngineQuote, Market, Engine, on_tick, fresh_quote, quote_of, with_tick, receive,
  update_market_state, is_stale, is_old, rule_restriction,
}
use mella_dashboard.Trading.Engine.Market.Freshness.{on_tick-fresh_quote}
use mella_dashboard.Trading.Engine.Orders.{
  OrderRequest, accepted, check_order, check_instrument, check_volume, check_price, check_margin,
  unless, free_margin,
}
use mella_dashboard.Trading.Engine.Orders.Acceptance.{IsAcceptable, check_order_iff}
use mella_dashboard.Trading.Pricing.{Rate}
use mella_dashboard.Trading.Engine.{Instrument}
use mella_dashboard.Trading.Engine.Examples.{birr, owner}

abbrev sessions : Sessions
sessions = record { is_weekend_restricted = λ n. false; is_rollover_window = λ n. false }

abbrev crosses : Crosses
crosses = record { direct = λ q. q; inverse = λ q. q }

-- A market without a price.
abbrev halted : Market
halted = record {
  instruments = (1, birr) ∷ [];
  quotes = [];
  last_tick_at = none;
  manual_halt = false;
  is_open = false;
  stale = 1 ∷ [];
  fx = record { account_currency = 9; usd_to_account = none; mids = [] };
  news_events = [];
  news_window_ms = 120_000;
}

abbrev tick : Tick
tick = record { symbol = 1; bid = 12_000_000_000; ask = 12_001_000_000; ts = 900; source = 1 }

abbrev engine : Engine
engine = record { market = halted; accounts = [] }

on_tick-fresh_quote_example :
    let m = (on_tick sessions crosses 1000 tick engine).market in
    (m.is_open ≡ true) × (fresh_quote tick.symbol m ≡ some (quote_of 1000 tick birr))
unfolding lookup
on_tick-fresh_quote_example = on_tick-fresh_quote sessions crosses 1000 tick birr engine refl refl

-- A tenth of a lot at the market.
abbrev order : OrderRequest
order = record {
  symbol = 1;
  side = buy;
  kind = market;
  volume = finite (pos 1_000_000_000);
  price = none;
  stop_loss = some (finite (pos 11_000_000_000));
  take_profit = none;
}

abbrev opened : Market
opened = (on_tick sessions crosses 1000 tick engine).market

tenth_accepted :
    check_order sessions crosses opened 1000 owner order
    ≡ accepted (pos 1_000_000_000) (pos 12_001_000_000) (pos 120_010_000)
unfolding check_order check_instrument check_volume check_price check_margin unless free_margin
    lookup on_tick with_tick receive update_market_state is_stale is_old insert fresh_quote
    rule_restriction quote_of apply_markup rate update_mid fill_price round_volume validate_volume
    validate_stops required_margin convert notional_quote round_to round_currency ◌-ℤ◌ ◌*ℤ◌
tenth_accepted = refl

check_order_iff_example :
    (check_order sessions crosses opened 1000 owner order
      ≡ accepted (pos 1_000_000_000) (pos 12_001_000_000) (pos 120_010_000))
    ↔ ((inst : Instrument) × (q : EngineQuote) × (r : Rate) × IsAcceptable sessions crosses opened
          1000 owner order
          (pos 1_000_000_000)
          (pos 12_001_000_000)
          (pos 120_010_000)
          inst
          q
          r)
check_order_iff_example =
    check_order_iff sessions crosses opened 1000 owner order (pos 1_000_000_000)
      (pos 12_001_000_000) (pos 120_010_000)
