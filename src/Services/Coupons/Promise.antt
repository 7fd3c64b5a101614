-- ===== src/Services/Coupons/Promise.antt =====
-- A coupon that `validateCoupon` of src/lib/services/coupons.ts has accepted is redeemed.
use mella_dashboard.Base.{
  refl, Bool, ℕ, suc, ◌+◌, ◌≤◌, ◌<◌, ◌≡◌, ◌≢◌, ◌==◌, Option, none, some, List, [], ◌∷◌, map, lookup,
  if◌then◌else◌, arith, sym, ap, ◌∙◌, count_if, inl, inr, Option-cases, Bool-cases,
}
use mella_dashboard.Money.{Amount}
use mella_dashboard.Services.Coupons.{
  Redemption, Coupon, Purchase, Offer, Shop, CouponRejectReason, refused, redeemed, paid, used,
  paid_count, valid, find_coupon, validate_for, validate_found, validate_coupon, redeem,
  record_coupon_redemption,
}
use mella_dashboard.Services.Coupons.Redeeming.{
  IsAtMost, IsCounted, redeem-refused, record_coupon_redemption-redeem,
  record_coupon_redemption_lem,
}

-- The purchases once one of them is claimed as paid.
abbrev pub mark_paid : ℕ → List Purchase → List Purchase
mark_paid id purchases = map (λ p. if p.id == id then record p { status = paid } else p) purchases

paid_count-mark_paid :
    (user id now purchase : ℕ) (purchases : List Purchase)
    → paid_count user id (mark_paid purchase purchases)
      ≤ used user id now (some purchase) purchases + count_if (λ p. p.id == purchase) purchases
unfolding paid_count used
paid_count-mark_paid user id now purchase [] = omega arith
paid_count-mark_paid user id now purchase (p ∷ ps) = elim (Bool-cases (p.id == purchase)) [
  | inl e ↦ rw e (ground (arith, paid_count-mark_paid user id now purchase ps))
  | inr e ↦ rw e (ground (arith, e, paid_count-mark_paid user id now purchase ps))
]

validate_for-valid :
    (now user : ℕ) (exclude : Option ℕ) (template id : ℕ) (c : Coupon) (o : Offer)
    (ps : List Purchase) (i : ℕ) (price d final : Amount)
    → validate_for now user exclude template id c o ps ≡ valid i price d final
    → IsAtMost (suc c.redeemed_count) c.max_redemptions
      × (used user id now exclude ps < c.per_user_limit)
unfolding validate_for
validate_for-valid now user exclude template id c o ps i price d final h = ground arith

validate_found-valid :
    (now user : ℕ) (exclude : Option ℕ) (template : ℕ) (offer : Option Offer) (id : ℕ) (c : Coupon)
    (ps : List Purchase) (i : ℕ) (price d final : Amount)
    → validate_found now user exclude template offer id c ps ≡ valid i price d final
    → (i ≡ id)
      × IsAtMost (suc c.redeemed_count) c.max_redemptions
      × (used user id now exclude ps < c.per_user_limit)
unfolding validate_found validate_for
validate_found-valid now user exclude template none id c ps i price d final h =
    absurd (ground arith)
validate_found-valid now user exclude template (some o) id c ps i price d final h = ground arith

-- A coupon that is found by its code is the one with its id.
abbrev pub IsIndexed : Shop → Type 0
IsIndexed shop =
    (code i : ℕ) (c : Coupon)
    → find_coupon code shop.coupons ≡ some (i, c)
    → lookup i shop.coupons ≡ some c

abbrev pub with_paid : ℕ → Shop → Shop
with_paid id shop = record shop { purchases = mark_paid id shop.purchases }

redeem-promise :
    (p : Purchase) (shop : Shop) (now i : ℕ) (c : Coupon)
    → IsAtMost (suc c.redeemed_count) c.max_redemptions
    → used p.user i now (some p.id) shop.purchases < c.per_user_limit
    → count_if (λ q. q.id == p.id) shop.purchases ≤ 1
    → (r : CouponRejectReason) → redeem i c p (with_paid p.id shop) ≢ refused r
redeem-promise p shop now i c room free one r h = ground (
  arith,
  (redeem-refused i c p (with_paid p.id shop) r h).1,
  paid_count-mark_paid p.user i now p.id shop.purchases,
)

validate_coupon-granted :
    (now template : ℕ) (code : Option ℕ) (p : Purchase) (shop : Shop) (i : ℕ)
    (price d final : Amount)
    → IsIndexed shop
    → count_if (λ q. q.id == p.id) shop.purchases ≤ 1
    → p.coupon ≡ some i
    → validate_coupon now p.user (some p.id) template code shop ≡ valid i price d final
    → (r : CouponRejectReason) → record_coupon_redemption p (with_paid p.id shop) ≢ refused r
unfolding validate_coupon
validate_coupon-granted now template none p shop i price d final ids one k h r e =
    absurd (ground arith)
validate_coupon-granted now template (some code) p shop i price d final ids one k h r e =
    elim (Option-cases (find_coupon code shop.coupons)) [
      | inl f ↦ absurd (ground (arith, rw (validate_coupon, f) at h))
      | inr ((id, c), f) ↦
          let (same, room, free) =
            validate_found-valid now p.user (some p.id) template (lookup template shop.templates) id
              c shop.purchases i price d final (rw (validate_coupon, f) at h) in
          redeem-promise p shop now id c room free one r (
            sym (
              record_coupon_redemption-redeem p (with_paid p.id shop) id c (k ∙ ap some same)
                (ids code id c f))
            ∙ e)
    ]

-- An accepted coupon is a stored one.
valid-known :
    (now user : ℕ) (exclude : Option ℕ) (template : ℕ) (code : Option ℕ) (shop : Shop) (i : ℕ)
    (price d final : Amount)
    → IsIndexed shop
    → validate_coupon now user exclude template code shop ≡ valid i price d final
    → (c : Coupon) × (lookup i shop.coupons ≡ some c)
unfolding validate_coupon
valid-known now user exclude template none shop i price d final ids h = absurd (ground arith)
valid-known now user exclude template (some code) shop i price d final ids h =
    elim (Option-cases (find_coupon code shop.coupons)) [
      | inl f ↦ absurd (ground (arith, rw (validate_coupon, f) at h))
      | inr ((id, c), f) ↦
          let (same, room, free) =
            validate_found-valid now user exclude template (lookup template shop.templates) id c
              shop.purchases i price d final (rw (validate_coupon, f) at h) in
          (c, rw same (ids code id c f))
    ]

is_redeemed :
    (x : Redemption)
    → ((r : CouponRejectReason) → x ≢ refused r)
    → (after : Shop) × (flag : Bool) × (x ≡ redeemed after flag)
is_redeemed (refused r) h = absurd (h r refl)
is_redeemed (redeemed after flag) h = (after, flag, refl)

-- If the checks accept a coupon for a purchase, and the purchase is then claimed as paid with no other
-- change in between, its redemption is not refused, free or not, and it is counted: the coupon has one
-- more redemption, and every other coupon stays as it is.
pub validate_coupon-redeemed :
    (now template : ℕ) (code : Option ℕ) (p : Purchase) (shop : Shop) (i : ℕ)
    (price d final : Amount)
    → IsIndexed shop
    → count_if (λ q. q.id == p.id) shop.purchases ≤ 1
    → p.coupon ≡ some i
    → validate_coupon now p.user (some p.id) template code shop ≡ valid i price d final
    → (after : Shop) × (flag : Bool) × (c : Coupon) × (record_coupon_redemption p
          (with_paid p.id shop)
        ≡ redeemed after flag)
      × (lookup i shop.coupons ≡ some c)
      × IsCounted i c shop after
validate_coupon-redeemed now template code p shop i price d final ids one k h =
    let (after, flag, e) =
      is_redeemed (record_coupon_redemption p (with_paid p.id shop))
        (validate_coupon-granted now template code p shop i price d final ids one k h) in
    let (c, known) = valid-known now p.user (some p.id) template code shop i price d final ids h in
    let lem = record_coupon_redemption_lem p (with_paid p.id shop) i c k known in
    (after, flag, c, e, known, (lem.1 after flag e).0)
