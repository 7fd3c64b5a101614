-- ===== src/Services/Ledger/Closing.antt =====
-- `recordPositionClose` of src/lib/services/tradeLedger.ts: the money that a close moves, and its
-- writes. A volume is a number of 10^-10 lots, so 10^-9 lots are 10.
use mella_dashboard.Base.{
  ℕ, suc, ◌+◌, ◌-◌, ◌*◌, leb, min, pos, ltb_ℤ, eqb_ℤ, max_ℤ, ◌+ℤ◌, ◌-ℤ◌, ◌*ℤ◌, neg_ℤ, Bool, true,
  false, Option, none, some, List, [], ◌∷◌, ◌++◌, is_some, if◌then◌else◌, lookup, insert,
}
use mella_dashboard.Money.{Amount, round_currency, round_currency_quot, round_half_up}
use mella_dashboard.Trading.Pricing.{Price, hundredth}
use mella_dashboard.Services.Store.{
  TradingAccount, Position, Trade, LedgerEntry, trade_pnl, commission, swap, Db, closed,
  CloseReason, is_open, Outcome, done, refused, not_found,
}
use mella_dashboard.Services.Engine.Commands.{evaluate_account}

pub record ClosePositionInput : Type 0 where
  pub position_id : ℕ
  pub close_price : Price
  pub closed_at : ℕ
  pub close_reason : CloseReason
  pub gross_profit : Amount
  pub commission : Amount
  pub swap : Amount
  pub volume : Option ℕ

-- What a close moves: volume, margin and money.
pub record CloseAmounts : Type 0 where
  pub close_volume : ℕ
  pub full_close : Bool
  pub margin_released : Amount
  pub commission : Amount
  pub swap : Amount
  pub gross : Amount
  pub net_profit : Amount

unfoldable pub close_amounts : ClosePositionInput → Position → CloseAmounts
close_amounts i p =
    let close_volume = min p.volume (elim i.volume [ some v ↦ v | none ↦ p.volume ]) in
    let full_close = leb p.volume (close_volume + 10) in
    let commission = round_currency i.commission in
    let swap = round_currency i.swap in
    let gross = round_currency i.gross_profit in
    record {
      close_volume = close_volume;
      full_close = full_close;
      margin_released =
          if full_close
          then p.margin_used
          else round_currency_quot (p.margin_used *ℤ pos close_volume) p.volume;
      commission = commission;
      swap = swap;
      gross = gross;
      net_profit = round_currency (gross -ℤ commission -ℤ swap);
    }

unfoldable pub round_volume : ℕ → ℕ
unfolding round_half_up
round_volume v = round_half_up v hundredth * hundredth

unfoldable pub closed_position : ClosePositionInput → CloseAmounts → Position → Position
closed_position i c p =
    if c.full_close
    then record p {
      status = closed;
      closed_at = some i.closed_at;
      close_price = some i.close_price;
      close_reason = some i.close_reason;
      floating_pnl = pos 0;
      margin_used = pos 0;
      current_price = i.close_price;
    }
    else record p {
      volume = round_volume (p.volume - c.close_volume);
      margin_used = round_currency (p.margin_used -ℤ c.margin_released);
      current_price = i.close_price;
    }

abbrev pub entry_unless_zero : LedgerEntry → List LedgerEntry
entry_unless_zero e = if eqb_ℤ e.amount (pos 0) then [] else e ∷ []

unfoldable pub close_entries : ℕ → ℕ → CloseAmounts → List LedgerEntry
close_entries account trade c =
    record { account_id = account; type = trade_pnl; amount = c.gross; ref_id = trade }
      ∷ entry_unless_zero (record {
        account_id = account;
        type = commission;
        amount = neg_ℤ c.commission;
        ref_id = trade;
      })
    ++ entry_unless_zero
        (record { account_id = account; type = swap; amount = neg_ℤ c.swap; ref_id = trade })

unfoldable pub settled : ClosePositionInput → CloseAmounts → TradingAccount → TradingAccount
settled i c a =
    let net = c.net_profit in
    record a {
      balance = round_currency (a.balance +ℤ net);
      realized_pnl = round_currency (a.realized_pnl +ℤ net);
      trade_count = suc a.trade_count;
      win_count = if ltb_ℤ (pos 0) net then suc a.win_count else a.win_count;
      loss_count = if ltb_ℤ net (pos 0) then suc a.loss_count else a.loss_count;
      gross_profit =
          if ltb_ℤ (pos 0) net then round_currency (a.gross_profit +ℤ net) else a.gross_profit;
      gross_loss = if ltb_ℤ net (pos 0) then round_currency (a.gross_loss -ℤ net) else a.gross_loss;
      margin_used = round_currency (max_ℤ (pos 0) (a.margin_used -ℤ c.margin_released));
      last_trade_at = some i.closed_at;
    }

abbrev closing_trade : ℕ → ClosePositionInput → CloseAmounts → Position → Trade
closing_trade id i c p = record {
  id = id;
  account_id = p.account_id;
  position_id = some i.position_id;
  volume = c.close_volume;
  entry_price = p.entry_price;
  exit_price = i.close_price;
  open_time = p.opened_at;
  close_time = some i.closed_at;
  profit = c.gross;
  commission = c.commission;
  swap = c.swap;
  net_profit = c.net_profit;
  status = closed;
  archived_at = none;
}

-- The writes of a close, for the stored position and account.
unfoldable pub write_close : ClosePositionInput → Position → TradingAccount → Db → Db
write_close i p a db =
    let c = close_amounts i p in
    record db {
      positions = insert i.position_id (closed_position i c p) db.positions;
      trades = closing_trade db.next_id i c p ∷ db.trades;
      ledger = close_entries p.account_id db.next_id c ++ db.ledger;
      accounts = insert p.account_id (settled i c a) db.accounts;
      next_id = suc db.next_id;
    }

-- The transaction of `recordPositionClose`. The flag is `changed`.
unfoldable pub close_transaction : ClosePositionInput → Db → Outcome (Db × ℕ × Bool)
close_transaction i db = elim (lookup i.position_id db.positions) [
  | none ↦ refused not_found
  | some p ↦
      if is_open p.status
      then elim (lookup p.account_id db.accounts) [
        | none ↦ refused not_found
        | some a ↦ done (write_close i p a db, p.account_id, true)
      ]
      else done (db, p.account_id, false)
]

-- `recordPositionClose`: the rules run after a close that changed something.
unfoldable pub record_position_close : ℕ → ClosePositionInput → Db → Outcome Db
record_position_close now i db = elim (close_transaction i db) [
  | refused f ↦ refused f
  | done (after, account, changed) ↦
      if changed
      then evaluate_account now account after
      else if is_some (lookup account after.accounts)
      then done after
      else refused not_found
]
