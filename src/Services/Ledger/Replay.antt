-- ===== src/Services/Ledger/Replay.antt =====
-- Fills and closes that are sent again.
use mella_dashboard.Base.{
  ℕ, suc, ◌+◌, ◌%◌, ◌≡◌, refl, sym, ◌∙◌, ==_iff, ◌+ℤ◌, true, false, none, some, List, ◌∷◌, arith,
  lookup, insert, lookup-insert, length,
}
use mella_dashboard.Money.{round_currency}
use mella_dashboard.Trading.Pricing.{hundredth}
use mella_dashboard.Services.Store.{TradingAccount, Position, Order, Db, done, is_open, filled}
use mella_dashboard.Services.Engine.Commands.{is_trading}
use mella_dashboard.Services.Ledger.{
  OpenPositionInput, open_position, find_order, filled_order, order_written, write_fill, fill,
}
use mella_dashboard.Services.Ledger.Closing.{
  ClosePositionInput, close_amounts, closed_position, write_close, close_transaction, round_volume,
}

full-closed :
    (i : ClosePositionInput) (p : Position)
    → (close_amounts i p).full_close ≡ true
    → (is_open (closed_position i (close_amounts i p) p).status ≡ false)
      × ((closed_position i (close_amounts i p) p).account_id ≡ p.account_id)
unfolding closed_position
full-closed i p h = (rw h refl, rw h refl)

closed-row :
    (i : ClosePositionInput) (id : ℕ) (p : Position) (a : TradingAccount) (db : Db)
    → id ≡ i.position_id
    → lookup id (write_close i p a db).positions ≡ some (closed_position i (close_amounts i p) p)
unfolding write_close
closed-row i id p a db e =
    lookup-insert i.position_id id (closed_position i (close_amounts i p) p) db.positions
    ∙ rw ((==_iff i.position_id id).1 (sym e)) refl

new_order :
    (i : OpenPositionInput) (position order : ℕ) (orders : List (ℕ × Order))
    → i.existing_order_id ≡ none
    → find_order i.account_id i.client_order_id orders ≡ none
    → order_written position order i orders
      ≡ done (some ((order, filled_order position i) ∷ orders))
unfolding order_written
new_order i position order orders h f = rw (h, order_written) (rw f refl)

known_order :
    (i : OpenPositionInput) (position order id : ℕ) (o : Order) (orders : List (ℕ × Order))
    → i.existing_order_id ≡ some id
    → lookup id orders ≡ some o
    → order_written position order i orders ≡ done (some (insert id (fill position i o) orders))
unfolding order_written
known_order i position order id o orders h f = rw (h, order_written) (rw f refl)

taken_order :
    (i : OpenPositionInput) (position order before id : ℕ) (orders : List (ℕ × Order))
    → i.existing_order_id ≡ none
    → order_written position order i ((id, filled_order before i) ∷ orders) ≡ done none
unfolding order_written find_order
taken_order i position order before id orders h =
    rw (h, order_written)
      (rw
        (
          (==_iff i.account_id i.account_id).1 refl,
          (==_iff i.client_order_id i.client_order_id).1 refl,
        )
        refl)

-- A full close of an open position writes one close, and any later close of that position changes
-- nothing.
pub close_transaction_once :
    (first later : ClosePositionInput) (p : Position) (a : TradingAccount) (db : Db)
    → lookup first.position_id db.positions ≡ some p
    → is_open p.status ≡ true
    → lookup p.account_id db.accounts ≡ some a
    → (close_amounts first p).full_close ≡ true
    → later.position_id ≡ first.position_id
    → (close_transaction first db ≡ done (write_close first p a db, p.account_id, true))
      × (close_transaction later (write_close first p a db)
          ≡ done (write_close first p a db, p.account_id, false))
unfolding close_transaction
close_transaction_once i j p a db h o k full same = (
  rw (h, close_transaction) (rw o (rw k refl)),
  rw (closed-row i j.position_id p a db same, close_transaction)
      (rw (full-closed i p full).0 (rw (full-closed i p full).1 refl)),
)

-- A partial close of volumes in hundredths of a lot leaves exactly the rest of the volume open.
pub closed_position-volume :
    (i : ClosePositionInput) (p : Position)
    → (close_amounts i p).full_close ≡ false
    → p.volume % hundredth ≡ 0
    → (close_amounts i p).close_volume % hundredth ≡ 0
    → let rest = closed_position i (close_amounts i p) p in
      ((close_amounts i p).close_volume + rest.volume ≡ p.volume)
      × (is_open rest.status ≡ is_open p.status)
unfolding closed_position close_amounts round_volume
closed_position-volume i p f v c = rw f (ground arith)

-- A fill that is sent again under the same client order, with no pending order, opens no second
-- position: the first one leaves one more position, and the second leaves the database as it is.
pub open_position_once :
    (now later : ℕ) (i : OpenPositionInput) (a : TradingAccount) (db : Db)
    → lookup i.account_id db.accounts ≡ some a
    → is_trading a.status ≡ true
    → i.existing_order_id ≡ none
    → find_order i.account_id i.client_order_id db.orders ≡ none
    → (after : Db) × (open_position now i db ≡ done (after, false))
      × (length after.positions ≡ suc (length db.positions))
      × (open_position later i after ≡ done (after, true))
unfolding open_position
open_position_once now later i a db h t n f =
    let orders = (suc db.next_id, filled_order db.next_id i) ∷ db.orders in
    let after = write_fill now i a orders db in
    let paid = record a { margin_used = round_currency (a.margin_used +ℤ i.margin_used) } in
    let stored : lookup i.account_id after.accounts ≡ some paid =
      lookup-insert i.account_id i.account_id paid db.accounts
      ∙ rw ((==_iff i.account_id i.account_id).1 refl) refl in
    (
      after,
      rw (h, open_position)
          (rw t (rw (new_order i db.next_id (suc db.next_id) db.orders n f) refl)),
      refl,
      rw (stored, open_position)
          (rw t (
            rw
              (taken_order i after.next_id (suc after.next_id) db.next_id (suc db.next_id) db.orders
                n)
              refl)),
    )

-- A fill of a pending order that is sent again is not recognised: it opens one more position, even
-- when the order is filled already.
pub open_position-existing :
    (now id : ℕ) (i : OpenPositionInput) (a : TradingAccount) (o : Order) (db : Db)
    → lookup i.account_id db.accounts ≡ some a
    → is_trading a.status ≡ true
    → i.existing_order_id ≡ some id
    → lookup id db.orders ≡ some o
    → o.status ≡ filled
    → (after : Db) × (open_position now i db ≡ done (after, false))
      × (length after.positions ≡ suc (length db.positions))
unfolding open_position
open_position-existing now id i a o db h t e k s = (
  write_fill now i a (insert id (fill db.next_id i o) db.orders) db,
  rw (h, open_position)
      (rw t (rw (known_order i db.next_id (suc db.next_id) id o db.orders e k) refl)),
  refl,
)
