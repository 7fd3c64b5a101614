-- ===== src/Services/Payouts/Drawdown.antt =====
-- A payment against a trailing drawdown limit: the floor moves with the equity.
use mella_dashboard.Base.{
  ℕ, ◌≡◌, refl, pos, neg_ℤ, ◌*ℤ◌, ◌+ℤ◌, ◌-ℤ◌, ◌≤ℤ◌, leb_ℤ, max_ℤ, min_ℤ, some, arith, Bool-cases,
  inl, inr,
}
use mella_dashboard.Money.{
  Amount, Percent, round_currency, round_percent_of, round_currency_quot, round_half_up,
}
use mella_dashboard.Money.Rounding.{round_currency-whole}
use mella_dashboard.Challenge.Types.{trailing, funded, le_floor}
use mella_dashboard.Challenge.Rules.{determine_challenge_transition, max_drawdown_floor}
use mella_dashboard.Services.Store.{TradingAccount, Db, own_rules}
use mella_dashboard.Services.Engine.{decision_input}
use mella_dashboard.Services.Ledger.Money.{IsWhole, IsWhole--ℤ}
use mella_dashboard.Services.Payouts.Deciding.{debited}

-- A limit is in whole cents.
round_percent_of-IsWhole : (v : Amount) (p : Percent) → IsWhole (round_percent_of v p)
unfolding round_percent_of round_currency_quot round_half_up ◌*ℤ◌
round_percent_of-IsWhole v p = ground arith

max-left : (a b : Amount) → b ≤ℤ a → max_ℤ a b ≡ a
max-left a b h = ground arith

min-left : (a b : Amount) → a ≤ℤ b → min_ℤ a b ≡ a
min-left a b h = ground arith

-- Taken off both sides, an amount changes no comparison.
shift : (e f s : Amount) → leb_ℤ (e -ℤ s) (f -ℤ s) ≡ leb_ℤ e f
unfolding ◌-ℤ◌ ◌+ℤ◌ neg_ℤ
shift e f s = ground arith

swap : (h s l : Amount) → (h -ℤ s) -ℤ l ≡ (h -ℤ l) -ℤ s
unfolding ◌-ℤ◌ ◌+ℤ◌ neg_ℤ
swap h s l = ground arith

lower : (h s : Amount) → pos 0 ≤ℤ s → (h -ℤ s) ≤ℤ h
unfolding ◌-ℤ◌ ◌+ℤ◌ neg_ℤ
lower h s p = ground arith

le-trans : (a b c : Amount) → a ≤ℤ b → b ≤ℤ c → a ≤ℤ c
le-trans a b c h k = ground arith

-- A trailing floor that is not locked at the starting balance moves with the equity.
trailing-moves :
    (equity high start spent : Amount) (p : Percent)
    → IsWhole equity
    → IsWhole high
    → IsWhole spent
    → pos 0 ≤ℤ spent
    → start ≤ℤ high -ℤ spent
    → high -ℤ round_percent_of start p ≤ℤ start
    → le_floor
        (round_currency (equity -ℤ spent))
        (max_drawdown_floor start (high -ℤ spent) p (some trailing))
      ≡ le_floor (round_currency equity) (max_drawdown_floor start high p (some trailing))
unfolding max_drawdown_floor
trailing-moves equity high start spent p we wh ws s h l =
    let limit = round_percent_of start p in
    let wl = round_percent_of-IsWhole start p in
    let below = lower high spent s in
    let moved = swap high spent limit in
    let low =
      le-trans ((high -ℤ limit) -ℤ spent) (high -ℤ limit) start (lower (high -ℤ limit) spent s) l in
    elim (Bool-cases (leb_ℤ limit (pos 0))) [
      | inl b ↦ rw b refl
      | inr b ↦ rw b (
          rw
            (
              max-left (high -ℤ spent) start h,
              max-left high start (le-trans start (high -ℤ spent) high h below),
              moved,
              round_currency-whole (equity -ℤ spent) (IsWhole--ℤ equity spent we ws),
              round_currency-whole equity we,
              round_currency-whole ((high -ℤ limit) -ℤ spent)
                  (IsWhole--ℤ (high -ℤ limit) spent (IsWhole--ℤ high limit wh wl) ws),
              round_currency-whole (high -ℤ limit) (IsWhole--ℤ high limit wh wl),
              min-left ((high -ℤ limit) -ℤ spent) start low,
              min-left (high -ℤ limit) start l,
            )
            (shift equity (high -ℤ limit) spent))
    ]

-- A payment of an amount in whole cents from a funded account with a trailing drawdown limit, whose
-- equity and high-water mark are in whole cents: where the mark stays at or above the starting balance
-- and the floor is not locked there before, the account breaks its drawdown floor after the payment
-- exactly when it did before.
pub debited-dd_breach :
    (now id : ℕ) (db : Db) (spent : Amount) (a : TradingAccount)
    → let r = (own_rules a.snapshot).rules in
      let limit = round_percent_of a.starting_balance r.max_drawdown in
      a.status ≡ funded
      → r.drawdown_mode ≡ some trailing
      → IsWhole a.equity
      → IsWhole a.high_water_mark
      → IsWhole spent
      → pos 0 ≤ℤ spent
      → a.starting_balance ≤ℤ a.high_water_mark -ℤ spent
      → a.high_water_mark -ℤ limit ≤ℤ a.starting_balance
      → let before = determine_challenge_transition (decision_input now id db a) in
        let after = determine_challenge_transition (decision_input now id db (debited spent a)) in
        after.dd_breach ≡ before.dd_breach
unfolding determine_challenge_transition decision_input debited
debited-dd_breach now id db spent a s m we wh ws p h l =
    rw (s, m)
      (trailing-moves a.equity a.high_water_mark a.starting_balance spent
        (own_rules a.snapshot).rules.max_drawdown we wh ws p h l)
