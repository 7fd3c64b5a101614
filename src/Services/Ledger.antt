-- ===== src/Services/Ledger.antt =====
-- src/lib/services/tradeLedger.ts: the only writes of fills, closes and marks. The fills and the
-- rejected orders stand here, the closes in Closing, the marks in Marks. A volume is a number of
-- 10^-10 lots.
pub mod Closing
pub mod Marks
pub mod Anchors
pub mod Money
pub mod Replay
use mella_dashboard.Base.{
  ℕ, suc, ◌+◌, ◌-◌, ◌*◌, ◌/◌, ◌==◌, ltb, leb, min, ℤ, pos, ltb_ℤ, eqb_ℤ, max_ℤ, ◌+ℤ◌, ◌-ℤ◌, ◌*ℤ◌,
  neg_ℤ, Bool, true, false, not, ◌&&◌, Option, none, some, List, [], ◌∷◌, ◌++◌, map, is_some,
  if◌then◌else◌, lookup, insert,
}
use mella_dashboard.Money.{Amount, round_currency, round_currency_quot, round_half_up}
use mella_dashboard.Trading.Pricing.{Price, Side, OrderKind, hundredth}
use mella_dashboard.Services.Store.{
  TradingAccount, Position, Trade, Order, LedgerEntry, trade_pnl, commission, swap, EquitySnapshot,
  Db, opened, closed, CloseReason, filled, rejected, is_open, Outcome, done, refused, not_found,
  conflict,
}
use mella_dashboard.Services.Engine.Transitions.{update_account}
use mella_dashboard.Services.Engine.Commands.{is_trading, evaluate_account}

pub record OpenPositionInput : Type 0 where
  pub account_id : ℕ
  pub symbol : ℕ
  pub side : Side
  pub volume : ℕ
  pub entry_price : Price
  pub stop_loss : Option Price
  pub take_profit : Option Price
  pub margin_used : Amount
  pub client_order_id : ℕ
  pub kind : OrderKind
  pub price : Option Price
  pub existing_order_id : Option ℕ

abbrev is_order : ℕ → ℕ → ℕ × Order → Bool
is_order account client row = row.1.account_id == account && row.1.client_order_id == client

-- The order under the unique key (accountId, clientOrderId).
unfoldable pub find_order : ℕ → ℕ → List (ℕ × Order) → Option (ℕ × Order)
find_order account client [] = none
find_order account client (row ∷ rows) =
    if is_order account client row then some row else find_order account client rows

abbrev pub opened_position : ℕ → OpenPositionInput → Position
opened_position now i = record {
  account_id = i.account_id;
  symbol = i.symbol;
  side = i.side;
  volume = i.volume;
  entry_price = i.entry_price;
  stop_loss = i.stop_loss;
  take_profit = i.take_profit;
  margin_used = round_currency i.margin_used;
  current_price = i.entry_price;
  floating_pnl = pos 0;
  status = opened;
  opened_at = now;
  closed_at = none;
  close_price = none;
  close_reason = none;
}

abbrev pub filled_order : ℕ → OpenPositionInput → Order
filled_order position_id i = record {
  account_id = i.account_id;
  client_order_id = i.client_order_id;
  symbol = i.symbol;
  side = i.side;
  kind = i.kind;
  volume = i.volume;
  price = i.price;
  stop_loss = i.stop_loss;
  take_profit = i.take_profit;
  status = filled;
  filled_price = some i.entry_price;
  position_id = some position_id;
}

abbrev pub fill : ℕ → OpenPositionInput → Order → Order
fill position_id i o = record o {
  status = filled;
  filled_price = some i.entry_price;
  position_id = some position_id;
}

-- The order of a fill: a pending one is filled, else one is created, unless the key is taken. `none`
-- is the violation of the unique key, which undoes the transaction.
unfoldable pub order_written :
    ℕ → ℕ → OpenPositionInput → List (ℕ × Order) → Outcome (Option (List (ℕ × Order)))
order_written position_id order_id i orders = elim i.existing_order_id [
  | some id ↦ elim (lookup id orders) [
    | none ↦ refused not_found
    | some o ↦ done (some (insert id (fill position_id i o) orders))
  ]
  | none ↦
      if is_some (find_order i.account_id i.client_order_id orders)
      then done none
      else done (some ((order_id, filled_order position_id i) ∷ orders))
]

-- The writes of a fill, with the orders that it leaves.
abbrev pub write_fill : ℕ → OpenPositionInput → TradingAccount → List (ℕ × Order) → Db → Db
write_fill now i a orders db = record db {
  accounts =
      insert i.account_id
        (record a { margin_used = round_currency (a.margin_used +ℤ i.margin_used) }) db.accounts;
  positions = (db.next_id, opened_position now i) ∷ db.positions;
  orders = orders;
  next_id = suc (suc db.next_id);
}

-- `openPosition`. The flag is `duplicate`.
unfoldable pub open_position : ℕ → OpenPositionInput → Db → Outcome (Db × Bool)
open_position now i db = elim (lookup i.account_id db.accounts) [
  | none ↦ refused not_found
  | some a ↦
      if is_trading a.status
      then elim (order_written db.next_id (suc db.next_id) i db.orders) [
        | refused f ↦ refused f
        | done none ↦ done (db, true)
        | done (some orders) ↦ done (write_fill now i a orders db, false)
      ]
      else refused conflict
]

-- `recordRejectedOrder`: null on a key that is taken.
unfoldable pub record_rejected_order : OpenPositionInput → Db → Db × Bool
record_rejected_order i db =
    if is_some (find_order i.account_id i.client_order_id db.orders) then (db, false) else (
      record db {
        orders =
            (
              db.next_id,
              record (filled_order 0 i) {
                stop_loss = none;
                take_profit = none;
                status = rejected;
                filled_price = none;
                position_id = none;
              },
            )
            ∷ db.orders;
        next_id = suc db.next_id;
      },
      true,
    )
