-- ===== src/Services/Purchases.antt =====
-- src/lib/services/purchases.ts: the tables of a purchase, and its activation. The frozen snapshot is
-- built in Snapshot, the payments stand in Payment, refunds and cancellations in Reversal.
pub mod Snapshot
pub mod Chain
pub mod Payment
pub mod Initiation
pub mod Reversal
pub mod Activating
pub mod Verified
pub mod Followers
pub mod Stopping
pub mod Reversed
pub mod Keeping
pub mod Adding
pub mod Attempts
mod Examples
use mella_dashboard.Base.{
  ℕ, suc, ◌==◌, pos, neg_ℤ, Bool, true, false, not, ◌&&◌, Option, none, some, List, [], ◌∷◌, map,
  any, is_some, if◌then◌else◌, lookup, insert,
}
use mella_dashboard.Money.{Amount}
use mella_dashboard.Challenge.Types.{active}
use mella_dashboard.Services.Store.{
  TemplateSnapshot, own_rules, TradingAccount, Db, Note, told_user, purchase_activated,
  over_redeemed, Failure, not_found, conflict,
}
use mella_dashboard.Services.Engine.{new_account_columns}
use mella_dashboard.Services.Engine.Transitions.{add_notes}
use mella_dashboard.Services.Coupons.{
  Coupon, PurchaseStatus, pending, paid, failed, refunded, cancelled, Offer, Shop,
  CouponRejectReason, Redemption, redeemed, record_coupon_redemption,
}
use mella_dashboard.Services.Coupons as Coupons
use mella_dashboard.Services.Referrals.{ReferralBook, create_reward}

-- A row of the table of purchases.
pub record PurchaseRow : Type 0 where
  pub user_id : ℕ
  pub template_id : ℕ
  pub status : PurchaseStatus
  pub amount : Amount
  pub list_price : Amount
  pub discount_amount : Amount
  pub coupon_id : Option ℕ
  pub currency : ℕ
  pub provider_tx_ref : ℕ
  pub idempotency_key : Option ℕ
  pub snapshot : TemplateSnapshot
  pub created_at : ℕ
  pub payment_date : Option ℕ
  pub refunded_at : Option ℕ
  pub cancelled_at : Option ℕ

-- The types PURCHASE and REFUND of the ledger, whose entries name a purchase and no account.
pub data SaleEntryType : Type 0 where
  purchase refund : SaleEntryType

pub record SaleEntry : Type 0 where
  pub purchase_id : ℕ
  pub type : SaleEntryType
  pub amount : Amount

-- The database with the tables of sales; `owned` is the unique column `purchaseId` of the accounts.
pub record Sales : Type 0 where
  pub db : Db
  pub purchases : List (ℕ × PurchaseRow)
  pub coupons : List (ℕ × Coupon)
  pub offers : List (ℕ × Offer)
  pub owned : List (ℕ × ℕ)
  pub book : ReferralBook
  pub sale_ledger : List SaleEntry
  pub next_purchase : ℕ

pub data Sale : Type 0 where
  sold : Sales → Sale
  refused : Failure → Sale
  coupon_refused : CouponRejectReason → Sale

-- The columns of a purchase that the coupons read.
abbrev pub coupon_columns : ℕ × PurchaseRow → Coupons.Purchase
coupon_columns (id, p) = record {
  id = id;
  user = p.user_id;
  coupon = p.coupon_id;
  amount = p.amount;
  status = p.status;
  created_at = p.created_at;
}

-- The tables as the coupons see them.
abbrev pub shop_of : Sales → Shop
shop_of s = record {
  coupons = s.coupons;
  purchases = map coupon_columns s.purchases;
  templates = s.offers;
}

pub data ActivationSource : Type 0 where
  chapa admin_test coupon : ActivationSource

abbrev pub is_admin_test : ActivationSource → Bool
is_admin_test admin_test = true
is_admin_test chapa = false
is_admin_test coupon = false

abbrev pub same_status : PurchaseStatus → PurchaseStatus → Bool
same_status pending pending = true
same_status paid paid = true
same_status failed failed = true
same_status refunded refunded = true
same_status cancelled cancelled = true
same_status _ _ = false

-- `tradingAccount.create` of a purchase.
unfoldable pub purchased_account : ℕ → ℕ → TemplateSnapshot → TradingAccount
purchased_account user now snapshot = new_account_columns snapshot now (record {
  user_id = user;
  snapshot = snapshot;
  phase = (own_rules snapshot).phase;
  status = active;
  previous_account = none;
  starting_balance = pos 0;
  balance = pos 0;
  equity = pos 0;
  high_water_mark = pos 0;
  daily_anchor_balance = pos 0;
  daily_anchor_date = 0;
  realized_pnl = pos 0;
  trade_count = 0;
  win_count = 0;
  loss_count = 0;
  gross_profit = pos 0;
  gross_loss = pos 0;
  margin_used = pos 0;
  created_at = now;
  expires_at = none;
  passed_at = none;
  failed_at = none;
  funded_at = none;
  status_changed_at = now;
  last_trade_at = none;
  failure_reason = none;
})

-- The account of the purchase, unless there is one.
unfoldable pub open_account : ℕ → ℕ → PurchaseRow → Sales → Sales
open_account now id p s = if is_some (lookup id s.owned) then s else record s {
  db = record s.db {
    accounts = (s.db.next_id, purchased_account p.user_id now p.snapshot) ∷ s.db.accounts;
    next_id = suc s.db.next_id;
  };
  owned = (id, s.db.next_id) ∷ s.owned;
}

abbrev same_entry : SaleEntryType → SaleEntryType → Bool
same_entry purchase purchase = true
same_entry refund refund = true
same_entry _ _ = false

-- `createMany` with `skipDuplicates`.
unfoldable pub add_sale_entry : SaleEntry → List SaleEntry → List SaleEntry
add_sale_entry e es =
    if any (λ x. same_entry x.type e.type && x.purchase_id == e.purchase_id) es then es else e ∷ es

abbrev pub claimed_row : ℕ → PurchaseRow → PurchaseRow
claimed_row now p = record p { status = paid; payment_date = some now }

-- The writes of the transaction once the row is claimed and the redemption counted.
unfoldable pub write_activation :
    ℕ → ℕ → ActivationSource → PurchaseRow → Sales → List (ℕ × Coupon) → Bool → Sales
write_activation now id source p s coupons over =
    let rewarded =
      if is_admin_test source then s.book else create_reward id p.user_id p.amount s.book in
    let opened = open_account now id p (record s { coupons = coupons; book = rewarded }) in
    record opened {
      db =
          add_notes
            (if over
              then over_redeemed id ∷ purchase_activated id ∷ told_user p.user_id ∷ []
              else purchase_activated id ∷ told_user p.user_id ∷ [])
            opened.db;
      sale_ledger =
          add_sale_entry (record { purchase_id = id; type = purchase; amount = p.amount })
            opened.sale_ledger;
    }

-- The transaction after its claim; a refused coupon undoes it.
unfoldable pub fulfil : ℕ → ℕ → ActivationSource → PurchaseRow → PurchaseRow → Sales → Sale
fulfil now id source before p s =
    let claimed : Sales = record s { purchases = insert id (claimed_row now p) s.purchases } in
    elim (record_coupon_redemption (coupon_columns (id, before)) (shop_of claimed)) [
      | Redemption.refused reason ↦ coupon_refused reason
      | redeemed shop over ↦ sold (write_activation now id source before claimed shop.coupons over)
    ]

-- `activatePurchaseTx` after its read: `before` is the row read, which may have changed since.
unfoldable pub activate_read : ℕ → ℕ → ActivationSource → PurchaseRow → Sales → Sale
activate_read now id source before s =
    if same_status before.status paid
    then sold s
    else if same_status before.status refunded
    then refused conflict
    else if same_status before.status cancelled
    then refused conflict
    else elim (lookup id s.purchases) [
      | none ↦ refused not_found
      | some p ↦
          if same_status p.status before.status then fulfil now id source before p s else sold s
    ]

unfoldable pub activate_purchase : ℕ → ℕ → ActivationSource → Sales → Sale
activate_purchase now id source s = elim (lookup id s.purchases) [
  | none ↦ refused not_found
  | some before ↦ activate_read now id source before s
]
