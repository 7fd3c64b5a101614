-- ===== src/Trading/Engine.antt =====
-- The state of the engine and its reaction to a price, src/trading/engine.ts. Identifiers and symbols
-- are numbers, instants numbers of milliseconds. What one account does depends on the shared state
-- only through a `Context`, so the loops over the positions of a symbol are split by account; the
-- order within one account is that of the source.
pub mod Equity
pub mod Loops
pub mod Once
pub mod Breaching
pub mod Market
pub mod Orders
mod Examples
use mella_dashboard.Base.{
  ℕ, ◌+◌, ltb, ◌==◌, ℤ, pos, ltb_ℤ, ◌+ℤ◌, Bool, true, false, not, ◌&&◌, ◌||◌, Option, none, some,
  List, [], ◌∷◌, ◌++◌, any, keep, if◌then◌else◌,
}
use mella_dashboard.Money.{Amount, round_currency}
use mella_dashboard.Challenge.Types.{
  AccountStatus, active, passed, failed, funded, suspended, frozen, ChallengeRuleSnapshot, Floor,
  FailureReason, max_drawdown, daily_loss, le_floor,
}
use mella_dashboard.Challenge.Rules.{max_drawdown_floor, daily_loss_floor}
use mella_dashboard.Trading.News.{Currencies}
use mella_dashboard.Trading.Pricing.{
  Price, Volume, Side, OrderKind, Quote, Rate, VolumeRules, StopTrigger, mark_price,
  gross_pnl_quote, convert, check_stops, stop_exit_price, pending_triggered,
}

pub record Instrument : Type 0 where
  pub symbol : ℕ
  pub is_crypto : Bool
  pub currencies : Currencies
  pub digits : ℕ
  pub contract_size : ℕ
  pub volume_rules : VolumeRules
  pub spread_markup_points : ℤ
  pub enabled : Bool

-- The fields of a position, an order and an account that the modelled operations read or write.
pub record EnginePosition : Type 0 where
  pub id : ℕ
  pub symbol : ℕ
  pub side : Side
  pub volume : Volume
  pub entry_price : Price
  pub stop_loss : Option Price
  pub take_profit : Option Price
  pub margin_used : Amount
  pub current_price : Option Price
  pub floating_pnl : Amount
  pub closing : Bool
  pub dirty : Bool

pub record EnginePending : Type 0 where
  pub id : ℕ
  pub symbol : ℕ
  pub side : Side
  pub kind : OrderKind
  pub volume : Volume
  pub price : Price
  pub triggering : Bool

-- What the engine reads of the snapshot of the account's template.
pub record EngineRules : Type 0 where
  pub risk : ChallengeRuleSnapshot
  pub leverage : ℕ
  pub max_positions : Option ℕ
  pub max_position_size : Option Volume
  pub weekend_holding_allowed : Option Bool
  pub overnight_holding_allowed : Option Bool
  pub news_trading_allowed : Option Bool

pub record EngineAccount : Type 0 where
  pub id : ℕ
  pub user : ℕ
  pub status : AccountStatus
  pub snapshot : EngineRules
  pub starting_balance : Amount
  pub balance : Amount
  pub high_water_mark : Amount
  pub daily_anchor_balance : Amount
  pub margin_used : Amount
  pub positions : List EnginePosition
  pub pending : List EnginePending
  pub equity : Amount
  pub floating : Amount
  pub dirty : Bool
  pub breaching : Bool

-- What the engine puts on the queue of an account.
pub data Job : Type 0 where
  close_position : ℕ → Option Price → StopTrigger → Quote → Job
  trigger_pending : ℕ → Quote → Job
  execute_breach : FailureReason → Amount → Job

-- An account and its queue, the next job first.
pub record Tracked : Type 0 where
  pub account : EngineAccount
  pub queue : List Job

-- The price that arrived, and what the loops of `onTick` read besides the account: the instrument,
-- `fx.rate`, whether the market is open, the stale symbols, and the rule windows at that instant.
pub record Context : Type 0 where
  pub symbol : ℕ
  pub instrument : Instrument
  pub rate : Option Rate
  pub quote : Quote
  pub is_open : Bool
  pub stale : List ℕ
  pub restricted : EngineRules → Bool

-- A position of the instrument; with no rate the last floating profit stays.
unfoldable pub mark_position : Instrument → Option Rate → Quote → EnginePosition → EnginePosition
mark_position inst none q p = p
mark_position inst (some rate) q p =
    let mark = mark_price p.side q in
    record p {
      current_price = some mark;
      floating_pnl =
          convert (gross_pnl_quote p.side p.entry_price mark p.volume inst.contract_size) rate;
      dirty = true;
    }

-- The stop that a position fires, unless it is closing.
unfoldable pub stop_fired : Quote → EnginePosition → Option StopTrigger
stop_fired q p = if p.closing then none else check_stops p.side q p.stop_loss p.take_profit

-- One position in the first loop of `onTick`; `armed` is `open && !acct.breaching`.
unfoldable pub position_on_tick : Context → Bool → EnginePosition → EnginePosition × List Job
position_on_tick c armed p =
    let marked = mark_position c.instrument c.rate c.quote p in
    if not (p.symbol == c.symbol)
    then (p, [])
    else if not armed
    then (marked, [])
    else elim (stop_fired c.quote marked) [
      | none ↦ (marked, [])
      | some trigger ↦ (
        record marked { closing = true },
        close_position p.id (stop_exit_price trigger p.stop_loss p.take_profit) trigger c.quote
            ∷ [],
      )
    ]

unfoldable pub positions_on_tick :
    Context → Bool → List EnginePosition → List EnginePosition × List Job
positions_on_tick c armed [] = ([], [])
positions_on_tick c armed (p ∷ ps) =
    let (here, job) = position_on_tick c armed p in
    let (rest, jobs) = positions_on_tick c armed ps in (here ∷ rest, job ++ jobs)

-- One order in the second loop; `armed` holds the rule windows too.
unfoldable pub pending_on_tick : Context → Bool → EnginePending → EnginePending × List Job
pending_on_tick c armed o =
    if o.symbol == c.symbol
      && armed
      && not o.triggering
      && pending_triggered o.side o.kind o.price c.quote
    then (record o { triggering = true }, trigger_pending o.id c.quote ∷ [])
    else (o, [])

unfoldable pub pendings_on_tick :
    Context → Bool → List EnginePending → List EnginePending × List Job
pendings_on_tick c armed [] = ([], [])
pendings_on_tick c armed (o ∷ os) =
    let (here, job) = pending_on_tick c armed o in
    let (rest, jobs) = pendings_on_tick c armed os in (here ∷ rest, job ++ jobs)

unfoldable pub sum_floating : List EnginePosition → Amount
sum_floating [] = pos 0
sum_floating (p ∷ ps) = p.floating_pnl +ℤ sum_floating ps

unfoldable pub sum_margin : List EnginePosition → Amount
sum_margin [] = pos 0
sum_margin (p ∷ ps) = p.margin_used +ℤ sum_margin ps

unfoldable pub recompute : EngineAccount → EngineAccount
recompute a =
    let floating = round_currency (sum_floating a.positions) in
    let equity = round_currency (a.balance +ℤ floating) in
    record a {
      floating = floating;
      margin_used = round_currency (sum_margin a.positions);
      equity = equity;
      high_water_mark = if ltb_ℤ a.high_water_mark equity then equity else a.high_water_mark;
      dirty = true;
    }

unfoldable pub holds_stale_symbol : List ℕ → EngineAccount → Bool
holds_stale_symbol stale a = any (λ p. any (λ s. s == p.symbol) stale) a.positions

unfoldable pub dd_floor : EngineAccount → Floor
dd_floor a =
    max_drawdown_floor a.starting_balance a.high_water_mark a.snapshot.risk.max_drawdown
      a.snapshot.risk.drawdown_mode

unfoldable pub dl_floor : EngineAccount → Floor
dl_floor a = daily_loss_floor a.daily_anchor_balance a.snapshot.risk.daily_drawdown

-- `reason` of `checkBreach`.
unfoldable pub breach_reason : EngineAccount → Option FailureReason
breach_reason a =
    if le_floor (round_currency a.equity) (dd_floor a)
    then some max_drawdown
    else if le_floor (round_currency a.equity) (dl_floor a)
    then some daily_loss
    else none

unfoldable pub check_breach : Tracked → Tracked
check_breach t = elim (breach_reason t.account) [
  | none ↦ t
  | some reason ↦ record {
    account = record t.account { breaching = true };
    queue = t.queue ++ execute_breach reason (round_currency t.account.equity) ∷ [];
  }
]

-- The account's part of the two loops over the positions and the orders of the symbol.
unfoldable pub fire : Context → Tracked → Tracked
fire c t =
    let a = t.account in
    let armed = c.is_open && not a.breaching in
    let (ps, stops) = positions_on_tick c armed a.positions in
    let (os, orders) = pendings_on_tick c (armed && not (c.restricted a.snapshot)) a.pending in
    record {
      account = record a { positions = ps; pending = os };
      queue = t.queue ++ stops ++ orders;
    }

-- The third loop, for the accounts that hold the symbol.
unfoldable pub review : Context → Tracked → Tracked
review c t =
    let u = record t { account = recompute t.account } in
    if c.is_open && not t.account.breaching && not (holds_stale_symbol c.stale t.account)
    then check_breach u
    else u

unfoldable pub account_on_tick : Context → Tracked → Tracked
account_on_tick c t =
    let u = fire c t in
    if any (λ p. p.symbol == c.symbol) t.account.positions then review c u else u
