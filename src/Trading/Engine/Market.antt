-- ===== src/Trading/Engine/Market.antt =====
-- The state that the accounts share, and the whole of `onTick`, src/trading/engine.ts. The New York
-- session clock of src/trading/sessions.ts is a parameter, and so is the spelling of the symbols of
-- src/trading/fx.ts.
pub mod Freshness
use mella_dashboard.Base.{
  ℕ, ◌+◌, ◌*◌, ◌^◌, ltb, ◌==◌, pos, Bool, true, false, not, ◌&&◌, ◌||◌, Option, none, some, List,
  [], ◌∷◌, any, keep, map, lookup, insert, if◌then◌else◌, is_some,
}
use mella_dashboard.Trading.Pricing.{
  Quote, Rate, apply_markup, RejectCode, weekend_closed, overnight_closed, news_window,
}
use mella_dashboard.Trading.Router.Symbol.{Tick}
use mella_dashboard.Trading.News.{NewsEvent, active_news_window}
use mella_dashboard.Trading.Fx.{Converter, Crosses, update_mid, rate}
use mella_dashboard.Trading.Engine.{Instrument, EngineRules, Tracked, Context, account_on_tick}

-- `isWeekendRestricted` and `isRolloverWindow`.
pub record Sessions : Type 0 where
  pub is_weekend_restricted : ℕ → Bool
  pub is_rollover_window : ℕ → Bool

pub record EngineQuote : Type 0 where
  pub effective : Quote
  pub raw : Quote
  pub ts : ℕ
  pub received_at : ℕ
  pub source : ℕ

-- `is_open` is `marketState.state === "OPEN"`.
pub record Market : Type 0 where
  pub instruments : List (ℕ × Instrument)
  pub quotes : List (ℕ × EngineQuote)
  pub last_tick_at : Option ℕ
  pub manual_halt : Bool
  pub is_open : Bool
  pub stale : List ℕ
  pub fx : Converter
  pub news_events : List NewsEvent
  pub news_window_ms : ℕ

pub record Engine : Type 0 where
  pub market : Market
  pub accounts : List Tracked

abbrev pub feed_stale_ms : ℕ
feed_stale_ms = 5000

-- No time yet, or one that is too long ago.
unfoldable pub is_old : ℕ → Option ℕ → Bool
is_old now none = true
is_old now (some at) = ltb (at + feed_stale_ms) now

abbrev pub received : Option EngineQuote → Option ℕ
received none = none
received (some q) = some q.received_at

unfoldable pub is_stale : ℕ → Market → ℕ → Bool
unfolding is_old
is_stale now m symbol = is_old now (received (lookup symbol m.quotes))

abbrev pub has : ℕ → List ℕ → Bool
has symbol symbols = any (λ s. s == symbol) symbols

unfoldable pub update_market_state : ℕ → Market → Market
update_market_state now m = record m {
  is_open = not m.manual_halt && not (is_old now m.last_tick_at);
  stale = keep (is_stale now m) (map (λ e. e.0) m.instruments);
}

unfoldable pub fresh_quote : ℕ → Market → Option EngineQuote
fresh_quote symbol m = if has symbol m.stale || not m.is_open then none else lookup symbol m.quotes

-- `allowed === false`.
abbrev pub is_forbidden : Option Bool → Bool
is_forbidden none = false
is_forbidden (some allowed) = not allowed

unfoldable pub rule_restriction :
    Sessions → Market → ℕ → Instrument → EngineRules → Option RejectCode
rule_restriction s m now inst rules =
    if not inst.is_crypto
      && is_forbidden rules.weekend_holding_allowed
      && s.is_weekend_restricted now
    then some weekend_closed
    else if not inst.is_crypto
        && is_forbidden rules.overnight_holding_allowed
        && s.is_rollover_window now
    then some overnight_closed
    else if is_forbidden rules.news_trading_allowed
        && is_some (active_news_window m.news_events inst.currencies now m.news_window_ms)
    then some news_window
    else none

-- The mid of a price, as a rate.
abbrev pub mid_of : Tick → Rate
mid_of tick = record { num = tick.bid + tick.ask; den = 2 * 10 ^ 10 }

abbrev pub raw_quote : Tick → Quote
raw_quote tick = record { bid = pos tick.bid; ask = pos tick.ask }

-- The quote that a price leaves, with the markup of the instrument.
unfoldable pub quote_of : ℕ → Tick → Instrument → EngineQuote
quote_of now tick inst = record {
  effective = apply_markup (raw_quote tick) inst.spread_markup_points inst.digits;
  raw = raw_quote tick;
  ts = tick.ts;
  received_at = now;
  source = tick.source;
}

unfoldable pub receive : ℕ → Tick → Instrument → Market → Market
receive now tick inst m = record m {
  quotes = insert tick.symbol (quote_of now tick inst) m.quotes;
  last_tick_at = some now;
  fx = update_mid tick.symbol (mid_of tick) m.fx;
}

-- The shared state that the loops over the accounts see.
unfoldable pub with_tick : ℕ → Tick → Instrument → Market → Market
with_tick now tick inst m =
    if not m.is_open || has tick.symbol m.stale
    then update_market_state now (receive now tick inst m)
    else receive now tick inst m

unfoldable pub context : Sessions → Crosses → ℕ → Tick → Instrument → Market → Context
context s x now tick inst m = record {
  symbol = tick.symbol;
  instrument = inst;
  rate = rate x inst.currencies.quote m.fx;
  quote = (quote_of now tick inst).effective;
  is_open = m.is_open;
  stale = m.stale;
  restricted = λ rules. is_some (rule_restriction s m now inst rules);
}

unfoldable pub on_tick : Sessions → Crosses → ℕ → Tick → Engine → Engine
on_tick s x now tick e = elim (lookup tick.symbol e.market.instruments) [
  | none ↦ e
  | some inst ↦
      let m = with_tick now tick inst e.market in
      record {
        market = m;
        accounts = map (account_on_tick (context s x now tick inst m)) e.accounts;
      }
]
