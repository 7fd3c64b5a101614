-- ===== src/Challenge/Examples.antt =====
-- The theorems on the challenge rules at concrete accounts.
use mella_dashboard.Base.{
  ◌+◌, ◌*◌, ◌≤◌, ◌≡◌, ◌≢◌, ◌↔◌, refl, pos, pos_part, ◌≤ℤ◌, leb_ℤ, ◌+ℤ◌, ◌-ℤ◌, true, false, some,
  none, inl, ◌⊎◌, List, [], ◌∷◌, All, arith,
}
use mella_dashboard.Money.{Amount, round_currency, round_percent_of}
use mella_dashboard.Challenge.Types.{
  active, passed, failed, frozen, funded, phase_1, static, level, ChallengeDecisionInput,
  max_drawdown, daily_loss, expired,
}
use mella_dashboard.Challenge.Rules.{
  max_drawdown_floor, daily_loss_floor, determine_challenge_transition, target_amount,
}
use mella_dashboard.Challenge.Rules.Decision.{
  Breaches, HasPassed, HasExpired, IsBroken, dd_floor, dl_floor, decision-passed_iff,
  decision-failed_iff, decision-reason,
}
use mella_dashboard.Challenge.Rules.Exact.{dd_breach_iff}
use mella_dashboard.Challenge.Consistency.{consistency_check, sum_from, max_from}
use mella_dashboard.Challenge.Consistency.Bounds.{consistency_check_bounds}
use mella_dashboard.Challenge.Manual.{is_legal_manual_transition, Moves, here, move}

-- 10 000 of the account currency, 10% drawdown, 5% a day, 8% target.
abbrev challenge : ChallengeDecisionInput
challenge = record {
  status = active;
  phase = phase_1;
  starting_balance = pos 10_000_000_000;
  net_pnl = pos 800_000_000;
  equity = pos 10_800_000_000;
  high_water_mark = pos 10_900_000_000;
  daily_anchor_balance = pos 10_700_000_000;
  trading_days = 4;
  snapshot = record {
    max_drawdown = pos 1000;
    daily_drawdown = pos 500;
    profit_target = some (pos 800);
    min_trading_days = 4;
    drawdown_mode = some static;
  };
  is_expired = false;
  consistency = none;
}

abbrev sunk : ChallengeDecisionInput
sunk = record challenge { equity = pos 9_000_000_000 }

passes_at_the_cent : (determine_challenge_transition challenge).next_status ≡ passed
unfolding determine_challenge_transition max_drawdown_floor daily_loss_floor round_percent_of
    round_currency target_amount ◌-ℤ◌
passes_at_the_cent = refl

decision-passed_iff_example :
    ((determine_challenge_transition challenge).next_status ≡ passed)
    ↔ (HasPassed challenge × ¬ IsBroken challenge)
decision-passed_iff_example = decision-passed_iff challenge (λ e. cc)

decision-failed_iff_example : ((determine_challenge_transition sunk).next_status ≡ failed) ↔ (
    ((sunk.status ≡ active) ⊎ (sunk.status ≡ funded))
    × (IsBroken sunk ⊎ (HasExpired sunk × ¬ HasPassed sunk)))
decision-failed_iff_example = decision-failed_iff sunk (λ e. cc)

abbrev held : ChallengeDecisionInput
held = record sunk { status = frozen }

decision-reason_example :
    let d = determine_challenge_transition sunk in
    ((d.failure_reason ≡ some max_drawdown)
      ↔ (((sunk.status ≡ active) ⊎ (sunk.status ≡ funded)) × Breaches sunk.equity (dd_floor sunk)))
    × ((d.failure_reason ≡ some daily_loss) ↔ (
        ((sunk.status ≡ active) ⊎ (sunk.status ≡ funded))
        × (¬ Breaches sunk.equity (dd_floor sunk))
        × Breaches sunk.equity (dl_floor sunk)))
    × ((d.failure_reason ≡ some expired) ↔ (HasExpired sunk × (¬ HasPassed sunk) × ¬ IsBroken sunk))
    × ((d.failure_reason ≢ none) ↔ (d.next_status ≡ failed))
decision-reason_example = decision-reason sunk (λ e. cc)

sunk-IsBroken : IsBroken sunk
unfolding max_drawdown_floor round_percent_of round_currency ◌-ℤ◌
sunk-IsBroken = inl (omega arith)

floor_of_day : daily_loss_floor (pos 10_000_000_000) (pos 500) ≡ level (pos 9_500_000_000)
unfolding daily_loss_floor round_percent_of round_currency ◌-ℤ◌
floor_of_day = refl

dd_breach_iff_example :
    let limit = round_percent_of (pos 10_000_000_000) (pos 1000) in
    ((determine_challenge_transition sunk).dd_breach ≡ true) ↔ (
      (leb_ℤ limit (pos 0) ≡ false)
      × (round_currency (pos 9_000_000_000) +ℤ limit ≤ℤ pos 10_000_000_000))
dd_breach_iff_example = dd_breach_iff sunk (inl refl) refl refl

abbrev profits : List Amount
profits = pos 300_000_000 ∷ pos 250_000_000 ∷ pos 250_000_000 ∷ []

consistency_check_bounds_example :
    (pos 1 ≤ℤ pos 800_000_000)
    × All (λ v. pos_part (round_currency v) * 10_000 ≤ 800_000_000 * 4000 + 50_000_000) profits
unfolding consistency_check sum_from max_from round_currency round_percent_of ◌+ℤ◌
consistency_check_bounds_example = consistency_check_bounds profits (pos 4000) (omega arith) refl

abbrev frozen_then_failed : Moves phase_1 active failed
unfolding is_legal_manual_transition
frozen_then_failed = move {t = frozen} (move {t = active} here refl) refl
