-- ===== src/Services/Purchases/Initiation.antt =====
-- `initiateChapaPurchase` and `activateFreePurchase` of src/lib/services/purchases.ts. Whether Chapa
-- opens a checkout is a parameter. A call that loses the race for an idempotency key starts again and
-- finds the row, so that it is a call on the later tables.
use mella_dashboard.Base.{
  ℕ, suc, ◌==◌, pos, ltb_ℤ, leb_ℤ, Bool, false, not, ◌&&◌, ◌||◌, Option, none, some, List, [], ◌∷◌,
  if◌then◌else◌, lookup, insert,
}
use mella_dashboard.Money.{Amount}
use mella_dashboard.Services.Store.{TemplateSnapshot, payment_initiated, Failure, conflict}
use mella_dashboard.Services.Engine.Transitions.{add_notes}
use mella_dashboard.Services.Coupons.{
  pending, paid, failed, refunded, cancelled, Offer, CouponRejectReason, rejected, valid,
  validate_coupon, is_phase_1,
}
use mella_dashboard.Services.Purchases.{
  PurchaseRow, Sales, sold, refused, coupon_refused, shop_of, coupon, same_status,
  activate_purchase,
}
use mella_dashboard.Services.Purchases.Snapshot.{build_purchase_snapshot}
use mella_dashboard.Services.Purchases.Payment.{fail_pending, mark_purchase_failed}

-- `InitiatePurchaseResult`, and what is thrown; `unavailable` is an `Error` for the trader.
pub data Initiated : Type 0 where
  redirect already_paid activated : ℕ → Initiated
  failed_with : Failure → Initiated
  coupon_error : CouponRejectReason → Initiated
  unavailable : Initiated

-- What the caller sends: the attempt's key, and a coupon code, which may be one that no pattern takes.
pub record InitiateInput : Type 0 where
  pub user_id : ℕ
  pub template_id : ℕ
  pub idempotency_key : Option ℕ
  pub coupon_code : Option (Option ℕ)

abbrev pub has_key : ℕ → PurchaseRow → Bool
has_key key p = elim p.idempotency_key [ none ↦ false | some k ↦ k == key ]

-- `findUnique` on the idempotency key.
unfoldable pub find_by_key : ℕ → List (ℕ × PurchaseRow) → Option (ℕ × PurchaseRow)
find_by_key key [] = none
find_by_key key (p ∷ ps) = let rest = find_by_key key ps in if has_key key p.1 then some p else rest

-- `activateFreePurchase`.
unfoldable pub activate_free_purchase : ℕ → ℕ → Sales → Initiated × Sales
activate_free_purchase now id s = elim (activate_purchase now id coupon s) [
  | sold t ↦ (activated id, t)
  | refused f ↦ (failed_with f, s)
  | coupon_refused reason ↦ (coupon_error reason, mark_purchase_failed id s)
]

-- A failed attempt is pending again before its new checkout.
unfoldable pub revive : ℕ → PurchaseRow → Sales → Sales
revive id p s =
    if same_status p.status failed
    then record s { purchases = insert id (record p { status = pending }) s.purchases }
    else s

-- The checkout of an attempt; `opens` is whether Chapa opens one.
unfoldable pub resume_checkout : Bool → ℕ → PurchaseRow → Sales → Initiated × Sales
resume_checkout opens id p s =
    let revived = revive id p s in if opens then (redirect id, revived) else (unavailable, revived)

-- The coupon of an attempt is checked again, and not priced again.
unfoldable pub recheck_coupon : ℕ → ℕ → PurchaseRow → ℕ → Sales → Option CouponRejectReason
recheck_coupon now id p coupon_id s = elim (lookup coupon_id s.coupons) [
  | none ↦ some CouponRejectReason.not_found
  | some c ↦
      elim (validate_coupon now p.user_id (some id) p.template_id (some c.code) (shop_of s)) [
        | rejected reason price ↦ some reason
        | valid i price discount final ↦ none
      ]
]

-- An attempt that is there already.
unfoldable pub resume_purchase :
    ℕ → Bool → InitiateInput → ℕ → PurchaseRow → Sales → Initiated × Sales
resume_purchase now opens i id p s =
    if not (p.user_id == i.user_id)
    then (failed_with conflict, s)
    else if same_status p.status paid
    then (already_paid id, s)
    else if same_status p.status refunded || same_status p.status cancelled
    then (failed_with conflict, s)
    else if leb_ℤ p.amount (pos 0)
    then (if same_status p.status pending
        then activate_free_purchase now id s
        else (failed_with conflict, s))
    else elim p.coupon_id [
      | none ↦ resume_checkout opens id p s
      | some c ↦ elim (recheck_coupon now id p c s) [
        | none ↦ resume_checkout opens id p s
        | some reason ↦ (coupon_error reason, mark_purchase_failed id s)
      ]
    ]

-- The amount, the list price, the discount and the coupon.
pub record Pricing : Type 0 where
  pub amount : Amount
  pub list_price : Amount
  pub discount_amount : Amount
  pub coupon_id : Option ℕ

pub data Priced : Type 0 where
  priced : Pricing → Priced
  no_coupon : CouponRejectReason → Priced

unfoldable pub price_purchase : ℕ → InitiateInput → Offer → Sales → Priced
price_purchase now i o s = elim i.coupon_code [
  | none ↦
      priced (record {
        amount = o.price;
        list_price = o.price;
        discount_amount = pos 0;
        coupon_id = none;
      })
  | some code ↦ elim (validate_coupon now i.user_id none i.template_id code (shop_of s)) [
    | rejected reason price ↦ no_coupon reason
    | valid id price discount final ↦ priced (record {
      amount = final;
      list_price = price;
      discount_amount = discount;
      coupon_id = some id;
    })
  ]
]

-- `CHAPA_CURRENCY`.
abbrev pub etb : ℕ
etb = 230

unfoldable pub is_purchasable : Offer → Bool
is_purchasable o = o.active && is_phase_1 o.phase && o.currency == etb && ltb_ℤ (pos 0) o.price

unfoldable pub new_purchase : ℕ → ℕ → InitiateInput → Pricing → TemplateSnapshot → PurchaseRow
new_purchase now tx_ref i pricing snapshot = record {
  user_id = i.user_id;
  template_id = i.template_id;
  status = pending;
  amount = pricing.amount;
  list_price = pricing.list_price;
  discount_amount = pricing.discount_amount;
  coupon_id = pricing.coupon_id;
  currency = etb;
  provider_tx_ref = tx_ref;
  idempotency_key = i.idempotency_key;
  snapshot = snapshot;
  created_at = now;
  payment_date = none;
  refunded_at = none;
  cancelled_at = none;
}

unfoldable pub add_purchase : PurchaseRow → Sales → Sales
add_purchase p s = record s {
  purchases = (s.next_purchase, p) ∷ s.purchases;
  next_purchase = suc s.next_purchase;
}

-- The new row, and its activation or its checkout.
unfoldable pub start_purchase : ℕ → Bool → PurchaseRow → Sales → Initiated × Sales
start_purchase now opens p s =
    let added = add_purchase p s in
    if leb_ℤ p.amount (pos 0)
    then activate_free_purchase now s.next_purchase added
    else if opens
    then (
      redirect s.next_purchase,
      record added { db = add_notes (payment_initiated s.next_purchase ∷ []) added.db },
    )
    else (unavailable, fail_pending s.next_purchase added)

-- A first call: the price is the template's, less the coupon; `tx_ref` is a fresh reference.
unfoldable pub first_purchase : ℕ → ℕ → Bool → InitiateInput → Sales → Initiated × Sales
first_purchase now tx_ref opens i s = elim (lookup i.template_id s.offers) [
  | none ↦ (unavailable, s)
  | some o ↦
      if is_purchasable o
      then elim (price_purchase now i o s) [
        | no_coupon reason ↦ (coupon_error reason, s)
        | priced pricing ↦ elim (lookup i.template_id s.db.templates) [
          | none ↦ (unavailable, s)
          | some t ↦ elim (build_purchase_snapshot 5 s.db.templates t.rules) [
            | none ↦ (unavailable, s)
            | some snapshot ↦
                start_purchase now opens (new_purchase now tx_ref i pricing snapshot) s
          ]
        ]
      ]
      else (unavailable, s)
]

-- `initiateChapaPurchase`.
unfoldable pub initiate_purchase : ℕ → ℕ → Bool → InitiateInput → Sales → Initiated × Sales
initiate_purchase now tx_ref opens i s = elim i.idempotency_key [
  | none ↦ first_purchase now tx_ref opens i s
  | some key ↦ elim (find_by_key key s.purchases) [
    | none ↦ first_purchase now tx_ref opens i s
    | some (id, p) ↦ resume_purchase now opens i id p s
  ]
]
