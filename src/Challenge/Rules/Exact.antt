-- ===== src/Challenge/Rules/Exact.antt =====
-- The rules at the cent, for accounts whose reference amounts are whole cents.
use mella_dashboard.Base.{
  ◌%◌, ◌≡◌, ◌↔◌, pos, abs, ◌≤ℤ◌, ◌-ℤ◌, leb_ℤ, true, false, some, arith, -ℤ_parts, ◌⊎◌, ◌+ℤ◌,
  +ℤ_parts, Bool-cases, inl, inr,
}
use mella_dashboard.Money.{Amount, cent, round_currency, round_percent_of}
use mella_dashboard.Money.Rounding.{round_currency-whole}
use mella_dashboard.Challenge.Types.{active, funded, static, ChallengeDecisionInput}
use mella_dashboard.Challenge.Rules.{
  max_drawdown_floor, daily_loss_floor, determine_challenge_transition,
}
use mella_dashboard.Challenge.Rules.Floors.{limit_whole}

abbrev pub IsWhole : Amount → Type 0
IsWhole v = abs v % cent ≡ 0

sub-IsWhole : (a b : Amount) → IsWhole a → IsWhole b → IsWhole (a -ℤ b)
unfolding ◌-ℤ◌
sub-IsWhole a b h k = ground arith

whole_floor :
    (a limit : Amount) → IsWhole a → IsWhole limit → round_currency (a -ℤ limit) ≡ a -ℤ limit
whole_floor a limit h k = round_currency-whole (a -ℤ limit) (sub-IsWhole a limit h k)

-- The account trades, so that its rules are evaluated.
abbrev pub IsLive : ChallengeDecisionInput → Type 0
IsLive i = (i.status ≡ active) ⊎ (i.status ≡ funded)

-- With a static drawdown limit and a starting balance in whole cents, the drawdown rule of a live
-- account breaks exactly when the limit is positive and the rounded equity has lost all of it: at the
-- very cent, and not one cent above.
pub dd_breach_iff :
    (i : ChallengeDecisionInput)
    → IsLive i
    → i.snapshot.drawdown_mode ≡ some static
    → IsWhole i.starting_balance
    → let limit = round_percent_of i.starting_balance i.snapshot.max_drawdown in
      ((determine_challenge_transition i).dd_breach ≡ true)
      ↔ ((leb_ℤ limit (pos 0) ≡ false) × (round_currency i.equity +ℤ limit ≤ℤ i.starting_balance))
unfolding determine_challenge_transition max_drawdown_floor
dd_breach_iff i s m w =
    let limit = round_percent_of i.starting_balance i.snapshot.max_drawdown in
    let facts = limit_whole i.starting_balance i.snapshot.max_drawdown in
    elim (Bool-cases (leb_ℤ limit (pos 0))) [
      | inl off ↦ rw m (ground arith)
      | inr on ↦ rw m (
          ground (
            arith,
            whole_floor i.starting_balance limit w (facts on).1,
            -ℤ_parts i.starting_balance limit,
            +ℤ_parts (round_currency i.equity) limit,
          ))
    ]

-- The same for the daily rule and the day's opening equity.
pub daily_breach_iff :
    (i : ChallengeDecisionInput)
    → IsLive i
    → IsWhole i.daily_anchor_balance
    → let limit = round_percent_of i.daily_anchor_balance i.snapshot.daily_drawdown in
      ((determine_challenge_transition i).daily_breach ≡ true) ↔ (
        (leb_ℤ limit (pos 0) ≡ false)
        × (round_currency i.equity +ℤ limit ≤ℤ i.daily_anchor_balance))
unfolding determine_challenge_transition daily_loss_floor
daily_breach_iff i s w =
    let limit = round_percent_of i.daily_anchor_balance i.snapshot.daily_drawdown in
    let facts = limit_whole i.daily_anchor_balance i.snapshot.daily_drawdown in
    elim (Bool-cases (leb_ℤ limit (pos 0))) [
      | inl off ↦ ground arith
      | inr on ↦ ground (
        arith,
        whole_floor i.daily_anchor_balance limit w (facts on).1,
        -ℤ_parts i.daily_anchor_balance limit,
        +ℤ_parts (round_currency i.equity) limit,
      )
    ]
