-- ===== src/Trading/Pricing/Profit.antt =====
-- The gross profit of a position.
use mella_dashboard.Base.{
  ℕ, ◌+◌, ◌*◌, ◌≡◌, ℤ, pos, negsuc, ◌-ℤ◌, ◌+ℤ◌, ◌*ℤ◌, neg_ℤ, arith, pos_part, neg_part, ap,
  +ℤ_parts, eq_of_parts,
}
use mella_dashboard.Trading.Pricing.{Price, Side, buy, sell, gross_pnl_quote}

times_parts :
    (a : ℤ) (c : ℕ)
    → (pos_part (a *ℤ pos c) ≡ pos_part a * c) × (neg_part (a *ℤ pos c) ≡ neg_part a * c)
unfolding ◌*ℤ◌
times_parts (pos n) c = ground arith
times_parts (negsuc n) c = ground arith

times_add : (a : ℤ) (v w : ℕ) → a *ℤ pos (v + w) ≡ a *ℤ pos v +ℤ a *ℤ pos w
times_add a v w = eq_of_parts _ _ (
    omega (
      arith,
      times_parts a (v + w),
      times_parts a v,
      times_parts a w,
      +ℤ_parts (a *ℤ pos v) (a *ℤ pos w),
    ))

add_times : (a b : ℤ) (c : ℕ) → (a +ℤ b) *ℤ pos c ≡ a *ℤ pos c +ℤ b *ℤ pos c
add_times a b c = eq_of_parts _ _ (
    omega (
      arith,
      times_parts (a +ℤ b) c,
      times_parts a c,
      times_parts b c,
      +ℤ_parts (a *ℤ pos c) (b *ℤ pos c),
      ap (λ n. n * c) (+ℤ_parts a b),
    ))

neg_add : (a b : ℤ) → neg_ℤ (a +ℤ b) ≡ neg_ℤ a +ℤ neg_ℤ b
unfolding neg_ℤ ◌+ℤ◌
neg_add a b = ground arith

-- Closing a position in two parts at one price gains exactly what closing it whole gains.
pub gross_pnl_quote-split :
    (side : Side) (entry exit : Price) (v w : ℕ) (c : ℕ)
    → gross_pnl_quote side entry exit (pos (v + w)) c
      ≡ gross_pnl_quote side entry exit (pos v) c +ℤ gross_pnl_quote side entry exit (pos w) c
unfolding gross_pnl_quote
gross_pnl_quote-split buy entry exit v w c = rw (times_add (exit -ℤ entry) v w) (add_times _ _ c)
gross_pnl_quote-split sell entry exit v w c =
    rw (times_add (exit -ℤ entry) v w, add_times _ _ c) (neg_add _ _)
