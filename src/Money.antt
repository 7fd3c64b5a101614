-- ===== src/Money.antt =====
-- Amounts of money, and `roundCurrency` of src/lib/services/calculations.ts.
-- An amount is an integer number of millionths of the account currency: 10 000 make a cent. The
-- source's doubles are read as these exact values.
pub mod Rounding
mod Examples
use mella_dashboard.Base.{ℕ, ◌+◌, ◌*◌, ◌/◌, ℤ, pos, neg, abs, ltb_ℤ, ◌*ℤ◌, if◌then◌else◌}

-- Millionths of the currency.
abbrev pub Amount : Type 0
Amount = ℤ

abbrev pub cent : ℕ
cent = 10_000

-- `Math.round` of `n / d` for a value that is not negative: half up.
unfoldable pub round_half_up : ℕ → ℕ → ℕ
round_half_up n d = (2 * n + d) / (2 * d)

-- `roundCurrency` of the exact quotient `num / den`: to the cent, half away from zero.
unfoldable pub round_currency_quot : ℤ → ℕ → Amount
unfolding round_half_up
round_currency_quot num den =
    let cents = round_half_up (abs num) (den * cent) in
    if ltb_ℤ num (pos 0) then neg (cents * cent) else pos (cents * cent)

unfoldable pub round_currency : Amount → Amount
unfolding round_currency_quot
round_currency v = round_currency_quot v 1

-- A percentage, in hundredths of a percent.
abbrev pub Percent : Type 0
Percent = ℤ

-- `roundCurrency(value * (percent / 100))`.
unfoldable pub round_percent_of : Amount → Percent → Amount
unfolding ◌*ℤ◌ round_currency_quot
round_percent_of v p = round_currency_quot (v *ℤ p) 10_000
