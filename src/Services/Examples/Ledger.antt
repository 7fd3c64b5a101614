-- ===== src/Services/Examples/Ledger.antt =====
-- The theorems on fills, closes and marks at the small database.
use mella_dashboard.Base.{
  ◌+◌, ◌≡◌, refl, pos, ◌+ℤ◌, true, false, none, some, [], ◌∷◌, lookup, length, suc, ◌%◌, Bool-cases,
  inl, inr, sym, ◌∙◌, ◌==◌,
}
use mathlib.Core.Path.{subst}
use mathlib.Core.Option.{some-injective}
use mella_dashboard.Trading.Pricing.{buy, market, stop}
use mella_dashboard.Services.Store.{TradingAccount, Db, manual, Order, filled, done, is_open}
use mella_dashboard.Services.Ledger.{OpenPositionInput, open_position, find_order}
use mella_dashboard.Services.Ledger.Closing.{
  ClosePositionInput, close_amounts, closed_position, write_close, close_transaction,
}
use mella_dashboard.Services.Ledger.Money.{
  ledger_total, IsBalanced, AllBalanced, write_close-AllBalanced,
}
use mella_dashboard.Services.Ledger.Replay.{
  close_transaction_once, closed_position-volume, open_position_once, open_position-existing,
}
use mella_dashboard.Services.Examples.{account, position, db, now, found}

-- Half of the position, and the whole of it, at a profit of 20 less 1.5 of commission.
abbrev half_close : ClosePositionInput
half_close = record {
  position_id = 4;
  close_price = pos 11_040_000_000;
  closed_at = now;
  close_reason = manual;
  gross_profit = pos 20_000_000;
  commission = pos 1_500_000;
  swap = pos 0;
  volume = some 2_000_000_000;
}

abbrev full_close : ClosePositionInput
full_close = record half_close { volume = none }

found_position : lookup 4 db.positions ≡ some position
unfolding lookup
found_position = refl

is_full : (close_amounts full_close position).full_close ≡ true
unfolding close_amounts
is_full = refl

is_partial : (close_amounts half_close position).full_close ≡ false
unfolding close_amounts
is_partial = refl

close_transaction_once_example :
    (close_transaction full_close db ≡ done (write_close full_close position account db, 3, true))
    × (close_transaction half_close (write_close full_close position account db)
        ≡ done (write_close full_close position account db, 3, false))
close_transaction_once_example =
    close_transaction_once full_close half_close position account db found_position refl found
      is_full refl

half_volume : (close_amounts half_close position).close_volume % 100_000_000 ≡ 0
unfolding close_amounts
half_volume = refl

closed_position-volume_example :
    let rest = closed_position half_close (close_amounts half_close position) position in
    ((close_amounts half_close position).close_volume + rest.volume ≡ position.volume)
    × (is_open rest.status ≡ is_open position.status)
closed_position-volume_example =
    closed_position-volume half_close position is_partial refl half_volume

-- The account before its first trade.
abbrev fresh_account : TradingAccount
fresh_account = record account { balance = pos 10_000_000_000; realized_pnl = pos 0 }

abbrev fresh_db : Db
fresh_db = record db { accounts = (3, fresh_account) ∷ [] }

fresh_db-AllBalanced : AllBalanced fresh_db
unfolding lookup ◌+ℤ◌ ledger_total
fresh_db-AllBalanced id a e = elim (Bool-cases (3 == id)) [
  | inl m ↦
      let is_it : lookup id fresh_db.accounts ≡ some fresh_account = rw m refl in
      subst (λ v. IsBalanced id v []) (some-injective _ _ (sym is_it ∙ e))
        (record { whole_start = refl; whole_pnl = refl; pnl_ledger = refl; balance_pnl = refl })
  | inr m ↦ absurd (cc (rw m at e))
]

found_fresh : lookup 3 fresh_db.accounts ≡ some fresh_account
unfolding lookup
found_fresh = refl

write_close-AllBalanced_example :
    AllBalanced (write_close half_close position fresh_account fresh_db)
write_close-AllBalanced_example =
    write_close-AllBalanced half_close position fresh_account fresh_db found_fresh
      fresh_db-AllBalanced

abbrev order : OpenPositionInput
order = record {
  account_id = 3;
  symbol = 7;
  side = buy;
  volume = 1_000_000_000;
  entry_price = pos 11_000_000_000;
  stop_loss = none;
  take_profit = none;
  margin_used = pos 10_000_000;
  client_order_id = 77;
  kind = market;
  price = none;
  existing_order_id = none;
}

new_key : find_order 3 77 db.orders ≡ none
unfolding find_order
new_key = refl

open_position_once_example :
    (after : Db) × (open_position now order db ≡ done (after, false))
    × (length after.positions ≡ suc (length db.positions))
    × (open_position (now + 5) order after ≡ done (after, true))
open_position_once_example =
    open_position_once now (now + 5) order account db found refl refl new_key

-- A stop order that has been filled by position 4.
abbrev stop_order : Order
stop_order = record {
  account_id = 3;
  client_order_id = 77;
  symbol = 7;
  side = buy;
  kind = stop;
  volume = 1_000_000_000;
  price = some (pos 11_000_000_000);
  stop_loss = none;
  take_profit = none;
  status = filled;
  filled_price = some (pos 11_000_000_000);
  position_id = some 4;
}

abbrev filled_db : Db
filled_db = record db { orders = (6, stop_order) ∷ [] }

found_order : lookup 6 filled_db.orders ≡ some stop_order
unfolding lookup
found_order = refl

open_position-existing_example :
    (after : Db) × (open_position now (record order { existing_order_id = some 6 }) filled_db
      ≡ done (after, false))
    × (length after.positions ≡ suc (length filled_db.positions))
open_position-existing_example =
    open_position-existing now 6 (record order { existing_order_id = some 6 }) account stop_order
      filled_db found refl refl found_order refl
