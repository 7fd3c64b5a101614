-- ===== src/Services/Coupons/Discount.antt =====
-- The bounds that src/lib/services/coupons.ts promises for a discount.
use mella_dashboard.Base.{
  ℕ, ◌%◌, ◌≡◌, ℤ, pos, abs, ◌≤ℤ◌, leb_ℤ, ◌*ℤ◌, ◌-ℤ◌, Option, none, some, arith, refl, Bool-cases,
  inl, inr,
}
use mella_dashboard.Money.{Amount, Percent, cent, round_currency, round_currency_quot}
use mella_dashboard.Money.Rounding.{round_currency-whole}
use mella_dashboard.Services.Coupons.{discount_of, compute_discount, final_amount}

-- A discount between nothing and the price.
abbrev pub IsWithin : Amount → Amount → Type 0
IsWithin price d = (pos 0 ≤ℤ d) × (d ≤ℤ price)

discount_of-percent :
    (n : ℕ) (num : ℤ) → n % cent ≡ 0 → IsWithin (pos n) (discount_of (pos n) num 10_000)
unfolding discount_of round_currency_quot round_currency ◌*ℤ◌
discount_of-percent n num h = (ground arith, ground arith)

discount_of-amount : (n : ℕ) (num : ℤ) → n % cent ≡ 0 → IsWithin (pos n) (discount_of (pos n) num 1)
unfolding discount_of round_currency_quot round_currency ◌*ℤ◌
discount_of-amount n num h = (ground arith, ground arith)

round_currency_quot-whole : (num : ℤ) (den : ℕ) → abs (round_currency_quot num den) % cent ≡ 0
unfolding round_currency_quot
round_currency_quot-whole num den = ground arith

discount_of-whole : (n den : ℕ) (num : ℤ) → abs (discount_of (pos n) num den) % cent ≡ 0
unfolding discount_of round_currency
discount_of-whole n den num = elim (Bool-cases (leb_ℤ num (pos 0))) [
  | inl e ↦ rw e refl
  | inr e ↦ elim (Bool-cases (leb_ℤ num (pos n *ℤ pos den))) [
    | inl f ↦ rw (e, f) (round_currency_quot-whole num den)
    | inr f ↦ rw (e, f) (round_currency_quot-whole (pos n) 1)
  ]
]

difference-whole :
    (n : ℕ) (d : Amount)
    → n % cent ≡ 0
    → abs d % cent ≡ 0
    → IsWithin (pos n) d
    → (abs (pos n -ℤ d) % cent ≡ 0) × IsWithin (pos n) (pos n -ℤ d)
unfolding ◌-ℤ◌
difference-whole n d h k (l, m) = ground arith

-- A discount of whole cents leaves whole cents.
final_amount-whole :
    (n : ℕ) (d : Amount)
    → n % cent ≡ 0
    → abs d % cent ≡ 0
    → IsWithin (pos n) d
    → IsWithin (pos n) (final_amount (pos n) d) × (final_amount (pos n) d ≡ pos n -ℤ d)
unfolding final_amount
final_amount-whole n d h k l =
    let (whole, within) = difference-whole n d h k l in
    (rw (round_currency-whole (pos n -ℤ d) whole) within, round_currency-whole (pos n -ℤ d) whole)

-- The discount by itself, in each of its two forms.
compute_discount-IsWithin :
    (n : ℕ) (percent : Option Percent) (amount : Option Amount)
    → n % cent ≡ 0
    → IsWithin (pos n) (compute_discount (pos n) percent amount)
      × (abs (compute_discount (pos n) percent amount) % cent ≡ 0)
unfolding compute_discount
compute_discount-IsWithin n none none h = ((ground arith, ground arith), refl)
compute_discount-IsWithin n (some p) a h = elim (Bool-cases (leb_ℤ (pos n) (pos 0))) [
  | inl e ↦ rw e ((ground arith, ground arith), refl)
  | inr e ↦ rw e (discount_of-percent n (pos n *ℤ p) h, discount_of-whole n 10_000 (pos n *ℤ p))
]
compute_discount-IsWithin n none (some a) h = elim (Bool-cases (leb_ℤ (pos n) (pos 0))) [
  | inl e ↦ rw e ((ground arith, ground arith), refl)
  | inr e ↦ rw e (discount_of-amount n a h, discount_of-whole n 1 a)
]

-- For a price of whole cents that is not negative, whatever the coupon takes off, the discount and the
-- final amount lie between nothing and the price, and together they are the price.
pub compute_discount_bounds :
    (n : ℕ) (percent : Option Percent) (amount : Option Amount)
    → n % cent ≡ 0
    → let d = compute_discount (pos n) percent amount in
      IsWithin (pos n) d
      × IsWithin (pos n) (final_amount (pos n) d)
      × (final_amount (pos n) d ≡ pos n -ℤ d)
compute_discount_bounds n percent amount h =
    let (within, whole) = compute_discount-IsWithin n percent amount h in
    let (final, sum) =
      final_amount-whole n (compute_discount (pos n) percent amount) h whole within in
    (within, final, sum)
