-- ===== src/Trading/Pricing/Markup.antt =====
-- The spread that `applyMarkup` adds.
use mella_dashboard.Base.{
  ℕ, suc, ◌+◌, ◌*◌, ◌/◌, ◌≤◌, ◌≡◌, ℤ, pos, negsuc, ◌≤ℤ◌, ◌-ℤ◌, ◌+ℤ◌, abs, arith, max_ℤ, +ℤ_parts,
  -ℤ_parts, ◌-◌, ap, ◌∙◌, ◌^◌,
}
use native.Mathlib.Nat.{mul-le-mul, le_refl, mul-div-mul_right, one-le-pow, pow-suc, mul-div_cancel}
use mella_dashboard.Trading.Pricing.{Quote, point, round_to, round_price, apply_markup}

div_mono : (a b d : ℕ) → 1 ≤ d → a ≤ b → a / d ≤ b / d
div_mono a b d s h = grind arith

-- Rounding to a grid keeps the order.
round_to_mono : (step : ℕ) (a b : ℤ) → 1 ≤ step → a ≤ℤ b → round_to step a ≤ℤ round_to step b
unfolding round_to
round_to_mono step (pos n) (pos m) s h =
    let up =
      mul-le-mul (div_mono (2 * n + step) (2 * m + step) (2 * step) (omega arith) (omega arith))
        (le_refl step) in
    omega (arith, up)
round_to_mono step (pos n) (negsuc m) s h = absurd (omega arith)
round_to_mono step (negsuc n) (pos m) s h = ground arith
round_to_mono step (negsuc n) (negsuc m) s h =
    let up =
      mul-le-mul
        (div_mono (2 * suc m + step - 1) (2 * suc n + step - 1) (2 * step) (omega arith)
          (omega arith))
        (le_refl step) in
    ground (arith, up)

point_pos : (digits : ℕ) → 1 ≤ point digits
unfolding point
point_pos digits = one-le-pow (10 - digits) 10 (omega arith)

abbrev half_spread : ℕ → ℕ → ℕ
half_spread m digits = abs (pos m) * point digits / 2

apply_markup-set :
    (q : Quote) (m digits : ℕ)
    → 1 ≤ m
    → apply_markup q (pos m) digits ≡ record {
      bid = round_to (point digits) (max_ℤ (pos 0) (q.bid -ℤ pos (half_spread m digits)));
      ask = round_to (point digits) (q.ask +ℤ pos (half_spread m digits));
    }
unfolding apply_markup
apply_markup-set q m digits h = ground arith

-- With a markup the spread stays one, and the prices are never better for the trader than the feed's
-- own, rounded to the instrument's digits.
pub apply_markup_bounds :
    (q : Quote) (m digits : ℕ)
    → 1 ≤ m
    → pos 0 ≤ℤ q.bid
    → q.bid ≤ℤ q.ask
    → let q' = apply_markup q (pos m) digits in
      (q'.bid ≤ℤ q'.ask)
      × (q'.bid ≤ℤ round_price q.bid digits)
      × (round_price q.ask digits ≤ℤ q'.ask)
unfolding round_price
apply_markup_bounds q m digits p b s =
    let half = half_spread m digits in
    let low = max_ℤ (pos 0) (q.bid -ℤ pos half) in
    let high = q.ask +ℤ pos half in
    let d = -ℤ_parts q.bid (pos half) in
    let u = +ℤ_parts q.ask (pos half) in
    rw (apply_markup-set q m digits p) (
      round_to_mono (point digits) low high (point_pos digits) (ground (arith, d, u)),
      round_to_mono (point digits) low q.bid (point_pos digits) (ground (arith, d)),
      round_to_mono (point digits) q.ask high (point_pos digits) (omega (arith, u)),
    )

-- A whole number of half points is rounded to whole points, the half up.
half_steps :
    (step k h : ℕ) → step ≡ 2 * h → 1 ≤ h → round_to step (pos (k * h)) ≡ pos ((k + 1) / 2 * step)
unfolding round_to
half_steps step k h e p = rw e (
    ap (λ n. pos (n * (2 * h)))
      ((let e' : 2 * (k * h) + 2 * h ≡ (k + 1) * (2 * h) = omega arith in
          ap (λ n. n / (2 * (2 * h))) e')
        ∙ mul-div-mul_right (k + 1) 2 (omega arith)))

point_even : (digits : ℕ) → digits ≤ 9 → point digits ≡ 2 * (10 ^ (9 - digits) * 5)
unfolding point
point_even digits p =
    let e : 10 - digits ≡ suc (9 - digits) = omega arith in
    rw e (let f = pow-suc 10 (9 - digits) in omega (arith, f))

low_steps :
    (step bid m k h : ℕ)
    → step ≡ 2 * h
    → 2 * bid ≡ m + k
    → max_ℤ (pos 0) (pos (bid * step) -ℤ pos (m * h)) ≡ pos (k * h)
unfolding ◌-ℤ◌
low_steps step bid m k h s e =
    rw s (let f : bid * (2 * h) ≡ m * h + k * h = omega (arith, ap (λ n. n * h) e) in ground arith)

high_steps :
    (step ask m h : ℕ) → step ≡ 2 * h → pos (ask * step) +ℤ pos (m * h) ≡ pos ((2 * ask + m) * h)
unfolding ◌+ℤ◌
high_steps step ask m h s =
    rw s (let f : ask * (2 * h) + m * h ≡ (2 * ask + m) * h = omega arith in ground arith)

widened :
    (step bid ask m k : ℕ)
    → 2 * bid ≡ m + k
    → pos ((2 * ask + m + 1) / 2 * step) +ℤ pos (bid * step)
      ≡ pos ((k + 1) / 2 * step) +ℤ pos ((ask + m) * step)
unfolding ◌+ℤ◌
widened step bid ask m k e =
    let f : ((2 * ask + m + 1) / 2 + bid) * step ≡ ((k + 1) / 2 + (ask + m)) * step =
      ap (λ n. n * step) (omega arith) in
    ground arith

half_spread-even : (m digits h : ℕ) → point digits ≡ 2 * h → half_spread m digits ≡ m * h
half_spread-even m digits h e = rw e (
    let f : (m + 0) * (2 * h) ≡ m * h * 2 = omega arith in
    rw f (mul-div_cancel (m * h) (omega arith)))

-- On a quote in whole points, of an instrument with at most nine digits, a markup of `m` points that
-- the bid can bear widens the spread by exactly `m` points.
pub apply_markup_spread :
    (bid ask m digits : ℕ)
    → digits ≤ 9
    → 1 ≤ m
    → m ≤ 2 * bid
    → let p = point digits in
      let q' = apply_markup (record { bid = pos (bid * p); ask = pos (ask * p) }) (pos m) digits in
      q'.ask +ℤ pos (bid * p) ≡ q'.bid +ℤ pos ((ask + m) * p)
apply_markup_spread bid ask m digits d p h =
    let step = point digits in
    let half = 10 ^ (9 - digits) * 5 in
    let even = point_even digits d in
    let some_half : 1 ≤ half = omega (arith, one-le-pow (9 - digits) 10 (omega arith)) in
    let k = 2 * bid - m in
    let e : 2 * bid ≡ m + k = omega arith in
    let spread = half_spread-even m digits half even in
    let down =
      ap (round_to step) (
        ap (λ n. max_ℤ (pos 0) (pos (bid * step) -ℤ pos n)) spread
        ∙ low_steps step bid m k half even e)
      ∙ half_steps step k half even some_half in
    let up =
      ap (round_to step)
        (ap (λ n. pos (ask * step) +ℤ pos n) spread ∙ high_steps step ask m half even)
      ∙ half_steps step (2 * ask + m) half even some_half in
    rw (apply_markup-set _ m digits p) (rw (down, up) (widened step bid ask m k e))
