-- ===== src/Services/Ledger/Marks.antt =====
-- The marks of src/lib/services/tradeLedger.ts: stop levels, persisted profits, the daily anchor and
-- the equity snapshots.
use mella_dashboard.Base.{ℕ, ltb, Option, none, some, List, [], ◌∷◌, if◌then◌else◌, lookup, insert}
use mella_dashboard.Money.{Amount, round_currency}
use mella_dashboard.Trading.Pricing.{Price}
use mella_dashboard.Services.Store.{
  TradingAccount, Position, Db, is_open, Outcome, done, refused, conflict,
}
use mella_dashboard.Services.Engine.Transitions.{update_account}

-- A field that is not sent is `none`; one that is sent as null is `some none`.
pub record Risk : Type 0 where
  pub stop_loss : Option (Option Price)
  pub take_profit : Option (Option Price)

abbrev pub with_risk : Risk → Position → Position
with_risk r p = record p {
  stop_loss = elim r.stop_loss [ none ↦ p.stop_loss | some level ↦ level ];
  take_profit = elim r.take_profit [ none ↦ p.take_profit | some level ↦ level ];
}

-- `position.updateMany` by identifier and status OPEN: the new rows, if there was one.
unfoldable pub update_open :
    ℕ → (Position → Position) → List (ℕ × Position) → Option (List (ℕ × Position))
update_open id f positions = elim (lookup id positions) [
  | none ↦ none
  | some p ↦ if is_open p.status then some (insert id (f p) positions) else none
]

-- `updatePositionRisk`
unfoldable pub update_position_risk : ℕ → Risk → Db → Outcome Db
unfolding update_open
update_position_risk id r db = elim (update_open id (with_risk r) db.positions) [
  | none ↦ refused conflict
  | some positions ↦ done (record db { positions = positions })
]

pub record Mark : Type 0 where
  pub position_id : ℕ
  pub current_price : Price
  pub floating_pnl : Amount

pub record AccountMark : Type 0 where
  pub account_id : ℕ
  pub equity : Amount
  pub margin_used : Amount

unfoldable pub persist_mark : Mark → Db → Db
unfolding update_open
persist_mark m db =
    elim (update_open m.position_id
      (λ p. record p {
        current_price = m.current_price;
        floating_pnl = round_currency m.floating_pnl;
      })
      db.positions) [ none ↦ db | some positions ↦ record db { positions = positions } ]

unfoldable pub persist_account_mark : AccountMark → Db → Db
unfolding update_account
persist_account_mark m =
    update_account m.account_id (λ a. record a {
      equity = round_currency m.equity;
      margin_used = round_currency m.margin_used;
    })

-- `persistMarks`: one transaction, so the writes are made in their order.
unfoldable pub persist_marks : List Mark → List AccountMark → Db → Db
unfolding persist_mark persist_account_mark
persist_marks [] [] db = db
persist_marks [] (a ∷ accounts) db = persist_marks [] accounts (persist_account_mark a db)
persist_marks (m ∷ marks) accounts db = persist_marks marks accounts (persist_mark m db)

-- The row after `captureDailyAnchor`: an anchor at or after the boundary stays.
unfoldable pub anchored : Amount → ℕ → TradingAccount → TradingAccount
anchored equity boundary a =
    if ltb a.daily_anchor_date boundary
    then record a { daily_anchor_balance = round_currency equity; daily_anchor_date = boundary }
    else a

unfoldable pub capture_daily_anchor : ℕ → Amount → ℕ → Db → Db
capture_daily_anchor id equity boundary = update_account id (anchored equity boundary)

-- `recordEquitySnapshot`, at the time of the database.
unfoldable pub record_equity_snapshot : ℕ → ℕ → Amount → Amount → Amount → Db → Db
record_equity_snapshot now id balance equity margin_used db = record db {
  snapshots =
      record {
        account_id = id;
        balance = round_currency balance;
        equity = round_currency equity;
        margin_used = round_currency margin_used;
        at = now;
      }
      ∷ db.snapshots;
}
