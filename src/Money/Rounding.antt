-- ===== src/Money/Rounding.antt =====
-- What `roundCurrency` guarantees.
use mella_dashboard.Base.{
  pos_part, neg_part, ◌+◌, ◌%◌, ◌≤◌, ◌≡◌, pos, negsuc, abs, ◌≤ℤ◌, neg_ℤ, arith,
}
use mella_dashboard.Money.{Amount, cent, round_currency}

-- The result is a whole number of cents at most half a cent away, rounded away from zero in a tie.
pub round_currency_nearest :
    (v : Amount)
    → (abs (round_currency v) % cent ≡ 0)
      × (abs (round_currency v) ≤ abs v + 5000)
      × (abs v + 1 ≤ abs (round_currency v) + 5000)
unfolding round_currency
round_currency_nearest (pos n) = ground arith
round_currency_nearest (negsuc n) = ground arith

-- Gains and losses are rounded symmetrically.
pub round_currency-neg : (v : Amount) → round_currency (neg_ℤ v) ≡ neg_ℤ (round_currency v)
unfolding round_currency neg_ℤ
round_currency-neg v = ground arith

-- Rounding keeps the order of amounts.
pub round_currency_mono : (v w : Amount) → v ≤ℤ w → round_currency v ≤ℤ round_currency w
unfolding round_currency
round_currency_mono (pos n) (pos m) h = ground arith
round_currency_mono (pos n) (negsuc m) h = ground arith
round_currency_mono (negsuc n) (pos m) h = ground arith
round_currency_mono (negsuc n) (negsuc m) h = ground arith

-- A whole number of cents is its own rounding.
pub round_currency-whole : (v : Amount) → abs v % cent ≡ 0 → round_currency v ≡ v
unfolding round_currency
round_currency-whole (pos n) h = ground arith
round_currency-whole (negsuc n) h = ground arith

-- Rounding twice is rounding once.
pub round_currency_idem : (v : Amount) → round_currency (round_currency v) ≡ round_currency v
round_currency_idem v = round_currency-whole (round_currency v) (round_currency_nearest v).0

-- The rounding of an amount that is not negative is not negative.
pub round_currency_nonneg : (v : Amount) → pos 0 ≤ℤ v → pos 0 ≤ℤ round_currency v
unfolding round_currency
round_currency_nonneg v h = ground arith

-- The rounding differs from the amount by half a cent at most, in either direction.
pub round_currency_close :
    (v : Amount)
    → (pos_part (round_currency v) + neg_part v ≤ pos_part v + neg_part (round_currency v) + 5000)
      × (pos_part v + neg_part (round_currency v) ≤ pos_part (round_currency v) + neg_part v + 5000)
unfolding round_currency
round_currency_close (pos n) = ground arith
round_currency_close (negsuc n) = ground arith
