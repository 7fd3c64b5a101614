-- ===== src/Services/Coupons/Examples.antt =====
-- A coupon of a quarter off, used once.
use mella_dashboard.Base.{
  ℕ, suc, ◌≤◌, ◌<◌, ◌≡◌, ◌⊎◌, pos, ◌≤ℤ◌, ◌-ℤ◌, ◌*ℤ◌, Bool, true, false, none, some, [], ◌∷◌, lookup,
  refl, arith, Bool-cases, inl, inr, ◌==◌,
}
use mathlib.Core.Path.{subst}
use mella_dashboard.Challenge.Types.{phase_1}
use mella_dashboard.Services.Coupons.{
  Coupon, Purchase, Shop, CouponRejectReason, exhausted, user_limit, refused, redeemed, pending,
  paid_count, compute_discount, discount_of, final_amount, find_coupon, validate_coupon,
  validate_found, validate_for, is_applicable, used, valid, record_coupon_redemption,
}
use mella_dashboard.Money.{round_currency, round_currency_quot}
use mella_dashboard.Services.Coupons.Redeeming.{IsAtMost, IsCounted, record_coupon_redemption_lem}
use mella_dashboard.Services.Coupons.Promise.{with_paid, validate_coupon-redeemed}

abbrev quarter : Coupon
quarter = record {
  code = 25;
  percent_off = some (pos 2500);
  amount_off = none;
  currency = 9;
  max_redemptions = some 1;
  per_user_limit = 1;
  redeemed_count = 0;
  template_ids = [];
  valid_from = none;
  valid_until = some 5_000_000;
  active = true;
}

-- The open checkout.
abbrev checkout : Purchase
checkout = record {
  id = 4;
  user = 6;
  coupon = some 1;
  amount = pos 75_000_000;
  status = pending;
  created_at = 1000;
}

abbrev shop : Shop
shop = record {
  coupons = (1, quarter) ∷ [];
  purchases = checkout ∷ [];
  templates =
      (8, record { price = pos 100_000_000; currency = 9; active = true; phase = phase_1 }) ∷ [];
}

-- 25 off 100.
checkout_accepted :
    validate_coupon 2000 6 (some 4) 8 (some 25) shop
    ≡ valid 1 (pos 100_000_000) (pos 25_000_000) (pos 75_000_000)
unfolding validate_coupon validate_found validate_for find_coupon is_applicable used lookup
    compute_discount discount_of final_amount round_currency round_currency_quot ◌-ℤ◌ ◌*ℤ◌
checkout_accepted = refl

found : (a b : ℕ × Coupon) → some a ≡ some b → a ≡ b
found a b h = cc

shop-IsIndexed :
    (code i : ℕ) (c : Coupon)
    → find_coupon code shop.coupons ≡ some (i, c)
    → lookup i shop.coupons ≡ some c
unfolding find_coupon lookup
shop-IsIndexed code i c h = elim (Bool-cases (25 == code)) [
  | inl e ↦
      subst (λ entry. lookup entry.0 shop.coupons ≡ some entry.1)
        (found (1, quarter) (i, c) (rw e at h)) refl
  | inr e ↦ absurd (ground (arith, rw e at h))
]

validate_coupon-redeemed_example :
    (after : Shop) × (flag : Bool) × (c : Coupon) × (record_coupon_redemption checkout
        (with_paid 4 shop)
      ≡ redeemed after flag)
    × (lookup 1 shop.coupons ≡ some c)
    × IsCounted 1 c shop after
validate_coupon-redeemed_example =
    validate_coupon-redeemed 2000 8 (some 25) checkout shop 1 (pos 100_000_000) (pos 25_000_000)
      (pos 75_000_000) shop-IsIndexed (ground arith) refl checkout_accepted

record_coupon_redemption_lem_example :
    ((r : CouponRejectReason)
      → record_coupon_redemption checkout shop ≡ refused r
      → ((checkout.amount ≤ℤ pos 0)
          × (((r ≡ exhausted) × ¬ IsAtMost (suc quarter.redeemed_count) quarter.max_redemptions)
              ⊎ ((r ≡ user_limit) × (quarter.per_user_limit < paid_count 6 1 shop.purchases)))))
    × ((after : Shop) (flag : Bool)
        → record_coupon_redemption checkout shop ≡ redeemed after flag
        → (IsCounted 1 quarter shop after
            × (checkout.amount ≤ℤ pos 0
                → IsAtMost (suc quarter.redeemed_count) quarter.max_redemptions
                  × (paid_count 6 1 shop.purchases ≤ quarter.per_user_limit)
                  × (flag ≡ false))))
unfolding lookup
record_coupon_redemption_lem_example =
    record_coupon_redemption_lem checkout shop 1 quarter refl refl
