-- ===== src/Trading/Engine/Equity.antt =====
-- `recompute` of src/trading/engine.ts.
use mella_dashboard.Base.{
  ◌≡◌, ◌≤ℤ◌, ◌+ℤ◌, arith, refl, ltb_ℤ, if◌then◌else◌, max_ℤ, eq_of_parts, ap,
}
use mella_dashboard.Money.{Amount, round_currency}
use mella_dashboard.Trading.Engine.{EngineAccount, sum_floating, recompute}

-- The mark after an equity.
abbrev raised : Amount → Amount → Amount
raised mark equity = if ltb_ℤ mark equity then equity else mark

raised-max_ℤ : (mark equity : Amount) → raised mark equity ≡ max_ℤ mark equity
raised-max_ℤ mark equity = eq_of_parts (raised mark equity) (max_ℤ mark equity) (ground arith)

raised_idem : (mark equity : Amount) → raised (raised mark equity) equity ≡ raised mark equity
raised_idem mark equity =
    eq_of_parts (raised (raised mark equity) equity) (raised mark equity) (ground arith)

pub recompute-breaching : (a : EngineAccount) → (recompute a).breaching ≡ a.breaching
unfolding recompute
recompute-breaching a = refl

-- The account shows the rounded balance with the rounded floating profit, and a high-water mark that
-- is the higher of the old one and that equity; the balance stays, and recomputing again changes
-- nothing.
pub recompute_lem :
    (a : EngineAccount)
    → let b = recompute a in
      (b.equity ≡ round_currency (a.balance +ℤ round_currency (sum_floating a.positions)))
      × (a.high_water_mark ≤ℤ b.high_water_mark)
      × (b.equity ≤ℤ b.high_water_mark)
      × (b.high_water_mark ≡ max_ℤ a.high_water_mark b.equity)
      × (b.balance ≡ a.balance)
      × (recompute b ≡ b)
unfolding recompute
recompute_lem a = (
  refl,
  ground arith,
  ground arith,
  raised-max_ℤ a.high_water_mark (recompute a).equity,
  refl,
  ap (λ m. record (recompute a) { high_water_mark = m })
      (raised_idem a.high_water_mark (recompute a).equity),
)
