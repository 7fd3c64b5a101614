-- ===== src/Services/Coupons.antt =====
-- src/lib/services/coupons.ts: the discount, the checks of `validateCoupon` and the count of a
-- redemption. A code that the pattern refuses is `none`; codes and currencies are numbers.
pub mod Discount
pub mod Redeeming
pub mod Promise
mod Examples
use mella_dashboard.Base.{
  ℕ, suc, ◌+◌, ◌-◌, ◌*◌, ltb, leb, ◌==◌, ℤ, pos, ltb_ℤ, leb_ℤ, ◌-ℤ◌, ◌*ℤ◌, Bool, true, false, not,
  ◌&&◌, ◌||◌, Option, none, some, List, [], ◌∷◌, any, count_if, lookup, insert, if◌then◌else◌,
}
use mella_dashboard.Money.{Amount, Percent, round_currency, round_currency_quot}
use mella_dashboard.Challenge.Types.{TemplatePhase, phase_1, phase_2, funded_phase}

pub record Coupon : Type 0 where
  pub code : ℕ
  pub percent_off : Option Percent
  pub amount_off : Option Amount
  pub currency : ℕ
  pub max_redemptions : Option ℕ
  pub per_user_limit : ℕ
  pub redeemed_count : ℕ
  pub template_ids : List ℕ
  pub valid_from : Option ℕ
  pub valid_until : Option ℕ
  pub active : Bool

pub data PurchaseStatus : Type 0 where
  pending paid failed refunded cancelled : PurchaseStatus

pub record Purchase : Type 0 where
  pub id : ℕ
  pub user : ℕ
  pub coupon : Option ℕ
  pub amount : Amount
  pub status : PurchaseStatus
  pub created_at : ℕ

-- The columns of a template that the checks read.
pub record Offer : Type 0 where
  pub price : Amount
  pub currency : ℕ
  pub active : Bool
  pub phase : TemplatePhase

-- The tables; coupons and templates by their ids.
pub record Shop : Type 0 where
  pub coupons : List (ℕ × Coupon)
  pub purchases : List Purchase
  pub templates : List (ℕ × Offer)

pub data CouponRejectReason : Type 0 where
  not_found inactive not_started expired exhausted user_limit not_applicable : CouponRejectReason

-- `roundCurrency(Math.min(raw, price))` for the exact quotient `num / den`.
unfoldable pub discount_of : Amount → ℤ → ℕ → Amount
discount_of price num den =
    if leb_ℤ num (pos 0)
    then pos 0
    else if leb_ℤ num (price *ℤ pos den)
    then round_currency_quot num den
    else round_currency price

-- A percentage has the precedence over an amount.
unfoldable pub compute_discount : Amount → Option Percent → Option Amount → Amount
compute_discount price (some percent) amount =
    if leb_ℤ price (pos 0) then pos 0 else discount_of price (price *ℤ percent) 10_000
compute_discount price none (some amount) =
    if leb_ℤ price (pos 0) then pos 0 else discount_of price amount 1
compute_discount price none none = pos 0

unfoldable pub final_amount : Amount → Amount → Amount
final_amount price discount = round_currency (price -ℤ discount)

-- A purchase of the user with the coupon, in the status.
abbrev pub is_paid : PurchaseStatus → Bool
is_paid paid = true
is_paid pending = false
is_paid failed = false
is_paid refunded = false
is_paid cancelled = false

abbrev pub is_pending : PurchaseStatus → Bool
is_pending pending = true
is_pending paid = false
is_pending failed = false
is_pending refunded = false
is_pending cancelled = false

abbrev pub is_some_of : Option ℕ → ℕ → Bool
is_some_of none id = false
is_some_of (some i) id = i == id

abbrev pub is_users : ℕ → ℕ → Purchase → Bool
is_users user id p = p.user == user && is_some_of p.coupon id

-- `PENDING_HOLD_MS`: an hour.
abbrev pub pending_hold_ms : ℕ
pending_hold_ms = 3_600_000

-- The count of `validateCoupon`, which leaves out the purchase `exclude`.
unfoldable pub used : ℕ → ℕ → ℕ → Option ℕ → List Purchase → ℕ
used user id now exclude purchases =
    count_if
      (λ p.
        is_users user id p
        && not (is_some_of exclude p.id)
        && (is_paid p.status || is_pending p.status && leb now (p.created_at + pending_hold_ms)))
      purchases

unfoldable pub paid_count : ℕ → ℕ → List Purchase → ℕ
paid_count user id purchases = count_if (λ p. is_users user id p && is_paid p.status) purchases

-- What `recordCouponRedemption` leaves: a refusal rolls the transaction back. The flag says whether an
-- over-redemption is recorded for the finance team.
pub data Redemption : Type 0 where
  refused : CouponRejectReason → Redemption
  redeemed : Shop → Bool → Redemption

abbrev pub over : Option ℕ → ℕ → Bool
over none n = false
over (some most) n = ltb most n

abbrev pub at_limit : Option ℕ → ℕ → Bool
at_limit none n = false
at_limit (some most) n = leb most n

-- The increment of `redeemedCount`.
unfoldable pub counted : ℕ → Coupon → Shop → Shop
counted id c shop = record shop {
  coupons = insert id (record c { redeemed_count = suc c.redeemed_count }) shop.coupons;
}

unfoldable pub redeem : ℕ → Coupon → Purchase → Shop → Redemption
redeem id c p shop =
    let free = leb_ℤ p.amount (pos 0) in
    let redemptions = paid_count p.user id shop.purchases in
    if free && at_limit c.max_redemptions c.redeemed_count
    then refused exhausted
    else if free && ltb c.per_user_limit redemptions
    then refused user_limit
    else redeemed (counted id c shop)
        (over c.max_redemptions (suc c.redeemed_count) || ltb c.per_user_limit redemptions)

-- `recordCouponRedemption` of a purchase that is stored as paid.
unfoldable pub record_coupon_redemption : Purchase → Shop → Redemption
record_coupon_redemption p shop = elim p.coupon [
  | none ↦ redeemed shop false
  | some id ↦ elim (lookup id shop.coupons) [
    | none ↦ redeemed shop false
    | some c ↦ redeem id c p shop
  ]
]

-- The coupon with a code, and its id.
unfoldable pub find_coupon : ℕ → List (ℕ × Coupon) → Option (ℕ × Coupon)
find_coupon code [] = none
find_coupon code (entry ∷ more) =
    let rest = find_coupon code more in if entry.1.code == code then some entry else rest

pub data CouponValidation : Type 0 where
  rejected : CouponRejectReason → Option Amount → CouponValidation
  valid : ℕ → Amount → Amount → Amount → CouponValidation

abbrev pub is_phase_1 : TemplatePhase → Bool
is_phase_1 phase_1 = true
is_phase_1 phase_2 = false
is_phase_1 funded_phase = false

-- `coupon.validFrom && validFrom > now`, and `validUntil && validUntil <= now`.
abbrev pub is_early : Option ℕ → ℕ → Bool
is_early none now = false
is_early (some from) now = ltb now from

abbrev pub is_late : Option ℕ → ℕ → Bool
is_late none now = false
is_late (some until) now = leb until now

-- An empty list is every template.
abbrev pub is_listed : ℕ → List ℕ → Bool
is_listed template [] = true
is_listed template (t ∷ ts) = any (λ i. i == template) (t ∷ ts)

unfoldable pub is_applicable : ℕ → Coupon → Offer → Bool
is_applicable template c o =
    o.active
    && is_phase_1 o.phase
    && ltb_ℤ (pos 0) o.price
    && o.currency == c.currency
    && is_listed template c.template_ids

-- The checks on a coupon and a template that are there.
unfoldable pub validate_for :
    ℕ → ℕ → Option ℕ → ℕ → ℕ → Coupon → Offer → List Purchase → CouponValidation
validate_for now user exclude template id c o purchases =
    let discount = compute_discount o.price c.percent_off c.amount_off in
    if not (is_applicable template c o)
    then rejected not_applicable (some o.price)
    else if at_limit c.max_redemptions c.redeemed_count
    then rejected exhausted (some o.price)
    else if leb c.per_user_limit (used user id now exclude purchases)
    then rejected user_limit (some o.price)
    else valid id o.price discount (final_amount o.price discount)

abbrev pub list_price : Option Offer → Option Amount
list_price none = none
list_price (some o) = some o.price

unfoldable pub validate_found :
    ℕ → ℕ → Option ℕ → ℕ → Option Offer → ℕ → Coupon → List Purchase → CouponValidation
validate_found now user exclude template offer id c purchases =
    if not c.active
    then rejected inactive (list_price offer)
    else if is_early c.valid_from now
    then rejected not_started (list_price offer)
    else if is_late c.valid_until now
    then rejected expired (list_price offer)
    else elim offer [
      | none ↦ rejected not_applicable none
      | some o ↦ validate_for now user exclude template id c o purchases
    ]

unfoldable pub validate_coupon : ℕ → ℕ → Option ℕ → ℕ → Option ℕ → Shop → CouponValidation
validate_coupon now user exclude template none shop =
    rejected not_found (list_price (lookup template shop.templates))
validate_coupon now user exclude template (some code) shop = elim (find_coupon code shop.coupons) [
  | none ↦ rejected not_found (list_price (lookup template shop.templates))
  | some (id, c) ↦
      validate_found now user exclude template (lookup template shop.templates) id c shop.purchases
]
