-- ===== src/Services/Purchases/Reversal.antt =====
-- `refundPurchase`, `cancelPurchase` and `suspendPurchaseAccounts` of src/lib/services/purchases.ts.
use mella_dashboard.Base.{
  ℕ, zero, suc, pos, neg_ℤ, ◌||◌, Option, none, some, List, [], ◌∷◌, map, if◌then◌else◌, lookup,
  insert,
}
use mella_dashboard.Challenge.Types.{AccountStatus, suspended}
use mella_dashboard.Services.Store.{
  by_admin, TradingAccount, Db, status_manual_change, purchase_reversed, not_found, conflict,
}
use mella_dashboard.Services.Engine.Transitions.{add_notes, update_account, follows}
use mella_dashboard.Services.Engine.Commands.{is_trading, close_by_admin}
use mella_dashboard.Services.Coupons.{pending, paid, refunded, cancelled}
use mella_dashboard.Services.Referrals.{void_reward}
use mella_dashboard.Services.Purchases.{
  refund, Sales, Sale, sold, refused, same_status, add_sale_entry,
}

-- `findUnique` on `previousAccountId`.
unfoldable pub find_follower : ℕ → List (ℕ × TradingAccount) → Option (ℕ × TradingAccount)
find_follower id [] = none
find_follower id (row ∷ rows) =
    let rest = find_follower id rows in if follows id row.1 then some row else rest

-- The accounts that progressed from one, at most `rounds` of them, with the statuses read.
unfoldable pub followers_of : ℕ → ℕ → List (ℕ × TradingAccount) → List (ℕ × AccountStatus)
followers_of zero id accounts = []
followers_of (suc rounds) id accounts = elim (find_follower id accounts) [
  | none ↦ []
  | some (next, a) ↦ (next, a.status) ∷ followers_of rounds next accounts
]

-- The account of the purchase and four followers.
unfoldable pub account_chain : ℕ → Sales → List (ℕ × AccountStatus)
account_chain purchase_id s = elim (lookup purchase_id s.owned) [
  | none ↦ []
  | some id ↦ elim (lookup id s.db.accounts) [
    | none ↦ []
    | some a ↦ (id, a.status) ∷ followers_of 4 id s.db.accounts
  ]
]

-- PURCHASE_REFUNDED or PURCHASE_CANCELLED, as a text.
abbrev pub refunded_text : ℕ
refunded_text = 1

abbrev pub cancelled_text : ℕ
cancelled_text = 2

abbrev pub suspended_row : ℕ → ℕ → TradingAccount → TradingAccount
suspended_row now reason a = record a {
  status = suspended;
  status_changed_at = now;
  failure_reason = some (by_admin reason);
  margin_used = pos 0;
}

unfoldable pub suspend_account : ℕ → ℕ → ℕ × AccountStatus → Db → Db
suspend_account now reason (id, status) db =
    if is_trading status
    then add_notes (status_manual_change id ∷ []) (
        update_account id (suspended_row now reason)
          (record db { positions = map (close_by_admin now id) db.positions }))
    else db

unfoldable pub suspend_all : ℕ → ℕ → List (ℕ × AccountStatus) → Db → Db
suspend_all now reason [] db = db
suspend_all now reason (a ∷ more) db = suspend_all now reason more (suspend_account now reason a db)

-- `suspendPurchaseAccounts`.
unfoldable pub suspend_purchase_accounts : ℕ → ℕ → ℕ → Sales → Sales
suspend_purchase_accounts now reason id s = record s {
  db = suspend_all now reason (account_chain id s) s.db;
}

-- The accounts and the reward of a reversed purchase, and the audit entry.
unfoldable pub reverse_effects : ℕ → ℕ → ℕ → Sales → Sales
reverse_effects now reason id s =
    let stopped = suspend_purchase_accounts now reason id s in
    record stopped {
      db = add_notes (purchase_reversed id ∷ []) stopped.db;
      book = void_reward id stopped.book;
    }

unfoldable pub refund_purchase : ℕ → ℕ → Sales → Sale
refund_purchase now id s = elim (lookup id s.purchases) [
  | none ↦ refused not_found
  | some p ↦
      if same_status p.status paid
      then sold (
          reverse_effects now refunded_text id (record s {
            purchases =
                insert id (record p { status = refunded; refunded_at = some now }) s.purchases;
            sale_ledger =
                add_sale_entry (record { purchase_id = id; type = refund; amount = neg_ℤ p.amount })
                  s.sale_ledger;
          }))
      else refused conflict
]

unfoldable pub cancel_purchase : ℕ → ℕ → Sales → Sale
cancel_purchase now id s = elim (lookup id s.purchases) [
  | none ↦ refused not_found
  | some p ↦
      if same_status p.status paid || same_status p.status pending
      then sold (
          reverse_effects now cancelled_text id (record s {
            purchases =
                insert id (record p { status = cancelled; cancelled_at = some now }) s.purchases;
          }))
      else refused conflict
]
