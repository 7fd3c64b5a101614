-- ===== src/Services/Coupons/Redeeming.antt =====
-- The count of a redemption, src/lib/services/coupons.ts.
use mella_dashboard.Base.{
  ℕ, suc, ◌≤◌, ◌<◌, ◌≡◌, ◌⊎◌, ◌==◌, pos, ◌≤ℤ◌, Bool, false, Option, none, some, lookup,
  if◌then◌else◌, arith, refl, lookup-insert,
}
use mella_dashboard.Services.Coupons.{
  Coupon, Purchase, Shop, CouponRejectReason, exhausted, user_limit, refused, redeemed, counted,
  redeem, paid_count, record_coupon_redemption,
}

-- The number is no more than the limit, if there is one.
abbrev pub IsAtMost : ℕ → Option ℕ → Type 0
IsAtMost n none = Unit
IsAtMost n (some most) = n ≤ most

-- The coupon has one more redemption, and no other coupon is touched.
abbrev pub IsCounted : ℕ → Coupon → Shop → Shop → Type 0
IsCounted id c shop after =
    (j : ℕ)
    → lookup j after.coupons ≡ (
        if id == j
        then some (record c { redeemed_count = suc c.redeemed_count })
        else lookup j shop.coupons)

counted-IsCounted : (id : ℕ) (c : Coupon) (shop : Shop) → IsCounted id c shop (counted id c shop)
unfolding counted
counted-IsCounted id c shop j =
    lookup-insert id j (record c { redeemed_count = suc c.redeemed_count }) shop.coupons

pub record_coupon_redemption-redeem :
    (p : Purchase) (shop : Shop) (id : ℕ) (c : Coupon)
    → p.coupon ≡ some id
    → lookup id shop.coupons ≡ some c
    → record_coupon_redemption p shop ≡ redeem id c p shop
unfolding record_coupon_redemption
record_coupon_redemption-redeem p shop id c h k = simp (record_coupon_redemption, h, k) refl

-- What a refusal says, and what a redemption does.
pub redeem-refused :
    (id : ℕ) (c : Coupon) (p : Purchase) (shop : Shop) (r : CouponRejectReason)
    → redeem id c p shop ≡ refused r
    → (p.amount ≤ℤ pos 0)
      × (((r ≡ exhausted) × ¬ IsAtMost (suc c.redeemed_count) c.max_redemptions)
          ⊎ ((r ≡ user_limit) × (c.per_user_limit < paid_count p.user id shop.purchases)))
unfolding redeem
redeem-refused id c p shop r h = ground arith

redeem-redeemed :
    (id : ℕ) (c : Coupon) (p : Purchase) (shop after : Shop) (flag : Bool)
    → redeem id c p shop ≡ redeemed after flag
    → (after ≡ counted id c shop)
      × (p.amount ≤ℤ pos 0
          → IsAtMost (suc c.redeemed_count) c.max_redemptions
            × (paid_count p.user id shop.purchases ≤ c.per_user_limit)
            × (flag ≡ false))
unfolding redeem
redeem-redeemed id c p shop after flag h = (ground arith, ground arith)

-- A purchase with a known coupon. One that was paid for is never refused. A free one that is counted
-- stays within both limits of the coupon, with nothing to report to the finance team, and one that is
-- refused would have gone over the limit that is named.
pub record_coupon_redemption_lem :
    (p : Purchase) (shop : Shop) (id : ℕ) (c : Coupon)
    → p.coupon ≡ some id
    → lookup id shop.coupons ≡ some c
    → ((r : CouponRejectReason)
        → record_coupon_redemption p shop ≡ refused r
        → ((p.amount ≤ℤ pos 0)
            × (((r ≡ exhausted) × ¬ IsAtMost (suc c.redeemed_count) c.max_redemptions)
                ⊎ ((r ≡ user_limit) × (c.per_user_limit < paid_count p.user id shop.purchases)))))
      × ((after : Shop) (flag : Bool)
          → record_coupon_redemption p shop ≡ redeemed after flag
          → (IsCounted id c shop after
              × (p.amount ≤ℤ pos 0
                  → IsAtMost (suc c.redeemed_count) c.max_redemptions
                    × (paid_count p.user id shop.purchases ≤ c.per_user_limit)
                    × (flag ≡ false))))
record_coupon_redemption_lem p shop id c h k =
    rw (record_coupon_redemption-redeem p shop id c h k) (
      redeem-refused id c p shop,
      (λ after flag e.
          let (same, limits) = redeem-redeemed id c p shop after flag e in
          (rw same (counted-IsCounted id c shop), limits)),
    )
