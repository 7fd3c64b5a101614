-- ===== src/Services/Purchases/Payment.antt =====
-- `verifyAndCompleteChapaPurchase` and `markPurchaseFailed` of src/lib/services/purchases.ts. The answer
-- of Chapa is a parameter, none for a request that failed.
use mella_dashboard.Base.{
  ℕ, ◌==◌, eqb_ℤ, Bool, true, false, ◌&&◌, ◌||◌, Option, none, some, List, [], ◌∷◌, if◌then◌else◌,
  lookup, insert,
}
use mella_dashboard.Money.{Amount, round_currency}
use mella_dashboard.Services.Store.{purchase_failed}
use mella_dashboard.Services.Engine.Transitions.{add_notes}
use mella_dashboard.Services.Coupons.{PurchaseStatus, paid, refunded, cancelled}
use mella_dashboard.Services.Purchases.{
  PurchaseRow, Sales, Sale, sold, refused, coupon_refused, chapa, same_status, activate_purchase,
}

-- `ChapaPaymentStatus`.
pub data PaymentStatus : Type 0 where
  success failed pending unknown : PaymentStatus

-- `ChapaVerification`; the amount is none where it is no finite number.
pub record Verification : Type 0 where
  pub payment_status : PaymentStatus
  pub amount : Option Amount
  pub currency : ℕ
  pub tx_ref : ℕ

-- `VerifyAndCompleteResult`, and an activation that throws.
pub data VerifyOutcome : Type 0 where
  now_paid already_paid still_pending now_failed terminal unknown_ref threw : VerifyOutcome

unfoldable pub find_by_ref : ℕ → List (ℕ × PurchaseRow) → Option (ℕ × PurchaseRow)
find_by_ref ref [] = none
find_by_ref ref (p ∷ ps) =
    let rest = find_by_ref ref ps in if p.1.provider_tx_ref == ref then some p else rest

-- `updateMany` on the status of a pending purchase.
unfoldable pub fail_pending : ℕ → Sales → Sales
fail_pending id s = elim (lookup id s.purchases) [
  | none ↦ s
  | some p ↦
      if same_status p.status PurchaseStatus.pending
      then record s {
        purchases = insert id (record p { status = PurchaseStatus.failed }) s.purchases;
      }
      else s
]

-- `markPurchaseFailed`, of a row that is there.
unfoldable pub mark_purchase_failed : ℕ → Sales → Sales
mark_purchase_failed id s = elim (lookup id s.purchases) [
  | none ↦ s
  | some p ↦
      if same_status p.status PurchaseStatus.pending
      then (let failing = fail_pending id s in
          record failing { db = add_notes (purchase_failed id ∷ []) failing.db })
      else s
]

abbrev pub is_open_status : PaymentStatus → Bool
is_open_status pending = true
is_open_status unknown = true
is_open_status success = false
is_open_status failed = false

abbrev pub is_success : PaymentStatus → Bool
is_success success = true
is_success pending = false
is_success unknown = false
is_success failed = false

abbrev pub same_amount : Option Amount → Amount → Bool
same_amount none v = false
same_amount (some w) v = eqb_ℤ (round_currency w) (round_currency v)

-- The payment succeeded, in the amount, the currency and under the reference of the purchase.
unfoldable pub is_match : Verification → PurchaseRow → Bool
is_match v p =
    is_success v.payment_status
    && same_amount v.amount p.amount
    && v.currency == p.currency
    && v.tx_ref == p.provider_tx_ref

abbrev pub outcome_of : Sale → Sales → VerifyOutcome × Sales
outcome_of (sold t) s = (now_paid, t)
outcome_of (refused f) s = (threw, s)
outcome_of (coupon_refused r) s = (threw, s)

-- The answer of Chapa for the row that was read, on the tables as they are by then.
unfoldable pub complete_verified :
    ℕ → ℕ → PurchaseRow → Option Verification → Sales → VerifyOutcome × Sales
complete_verified now id p none s = (still_pending, s)
complete_verified now id p (some v) s =
    if is_open_status v.payment_status
    then (still_pending, s)
    else if is_match v p
    then outcome_of (activate_purchase now id chapa s) s
    else (now_failed, mark_purchase_failed id s)

unfoldable pub verify_and_complete : ℕ → ℕ → Option Verification → Sales → VerifyOutcome × Sales
verify_and_complete now ref verification s = elim (find_by_ref ref s.purchases) [
  | none ↦ (unknown_ref, s)
  | some (id, p) ↦
      if same_status p.status paid
      then (already_paid, s)
      else if same_status p.status refunded || same_status p.status cancelled
      then (terminal, s)
      else complete_verified now id p verification s
]
