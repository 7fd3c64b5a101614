-- ===== src/Challenge/Rules/Decision.antt =====
-- What `determineChallengeTransition` decides, against a description by predicates.
use mella_dashboard.Base.{◌≤◌, ◌≡◌, ◌≢◌, ◌⊎◌, ◌↔◌, ◌≤ℤ◌, arith, some, none, Option, true, false}
use mella_dashboard.Money.{Amount, round_currency}
use mella_dashboard.Money.Rounding.{round_currency_mono}
use mella_dashboard.Challenge.Types.{
  active, passed, failed, funded, funded_phase, Floor, negative_infinity, level,
  ChallengeDecisionInput, max_drawdown, daily_loss, expired,
}
use mella_dashboard.Challenge.Rules.{
  max_drawdown_floor, daily_loss_floor, target_amount, determine_challenge_transition,
}

-- The rounded equity stands at or below the floor.
abbrev pub Breaches : Amount → Floor → Type 0
Breaches e negative_infinity = ⊥
Breaches e (level f) = round_currency e ≤ℤ f

-- The rounded profit has reached the target, if there is one.
abbrev pub Reaches : Amount → Option Amount → Type 0
Reaches pnl none = ⊥
Reaches pnl (some t) = t ≤ℤ round_currency pnl

abbrev pub dd_floor : ChallengeDecisionInput → Floor
dd_floor i =
    max_drawdown_floor i.starting_balance i.high_water_mark i.snapshot.max_drawdown
      i.snapshot.drawdown_mode

abbrev pub dl_floor : ChallengeDecisionInput → Floor
dl_floor i = daily_loss_floor i.daily_anchor_balance i.snapshot.daily_drawdown

abbrev pub target : ChallengeDecisionInput → Option Amount
target i = target_amount i.starting_balance i.snapshot.profit_target

-- A risk limit is broken.
abbrev pub IsBroken : ChallengeDecisionInput → Type 0
IsBroken i = Breaches i.equity (dd_floor i) ⊎ Breaches i.equity (dl_floor i)

-- An active challenge that met every objective.
pub record HasPassed (i : ChallengeDecisionInput) : Type 0 where
  pub is_active : i.status ≡ active
  pub is_challenge : i.phase ≢ funded_phase
  pub target_met : Reaches i.net_pnl (target i)
  pub days_met : i.snapshot.min_trading_days ≤ i.trading_days
  pub consistent : i.consistency ≢ some false

pub record HasExpired (i : ChallengeDecisionInput) : Type 0 where
  pub is_active : i.status ≡ active
  pub is_challenge : i.phase ≢ funded_phase
  pub late : i.is_expired ≡ true

-- An account that has not passed yet passes exactly when it is an active challenge, not in the
-- funded phase, whose rounded profit reaches a set target, with enough trading days, not refused by
-- the consistency rule, and with the rounded equity above both floors.
pub decision-passed_iff :
    (i : ChallengeDecisionInput)
    → i.status ≢ passed
    → ((determine_challenge_transition i).next_status ≡ passed) ↔ (HasPassed i × ¬ IsBroken i)
unfolding determine_challenge_transition
decision-passed_iff i h = ground arith

-- An account that has not failed yet fails exactly when it is active or funded and a floor is
-- broken, or its time is up and it did not pass.
pub decision-failed_iff :
    (i : ChallengeDecisionInput)
    → i.status ≢ failed
    → ((determine_challenge_transition i).next_status ≡ failed) ↔ (
        ((i.status ≡ active) ⊎ (i.status ≡ funded)) × (IsBroken i ⊎ (HasExpired i × ¬ HasPassed i)))
unfolding determine_challenge_transition
decision-failed_iff i h = ground arith

-- A recorded outcome and an administrator's hold are never decided again: the status stays, with no
-- reason, and no rule reports a breach.
pub decision-terminal :
    (i : ChallengeDecisionInput)
    → i.status ≢ active
    → i.status ≢ funded
    → let d = determine_challenge_transition i in
      (d.next_status ≡ i.status)
      × (d.failure_reason ≡ none)
      × (d.dd_breach ≡ false)
      × (d.daily_breach ≡ false)
unfolding determine_challenge_transition
decision-terminal i h k = ground arith

-- The reason that is reported is the first rule that applies: the drawdown limit before the daily
-- limit, and the time window only when neither is broken; there is a reason exactly when the account
-- fails by this decision.
pub decision-reason :
    (i : ChallengeDecisionInput)
    → i.status ≢ failed
    → let d = determine_challenge_transition i in
      ((d.failure_reason ≡ some max_drawdown)
        ↔ (((i.status ≡ active) ⊎ (i.status ≡ funded)) × Breaches i.equity (dd_floor i)))
      × ((d.failure_reason ≡ some daily_loss) ↔ (
          ((i.status ≡ active) ⊎ (i.status ≡ funded))
          × (¬ Breaches i.equity (dd_floor i))
          × Breaches i.equity (dl_floor i)))
      × ((d.failure_reason ≡ some expired) ↔ (HasExpired i × (¬ HasPassed i) × ¬ IsBroken i))
      × ((d.failure_reason ≢ none) ↔ (d.next_status ≡ failed))
unfolding determine_challenge_transition
decision-reason i h = (ground arith, ground arith, ground arith, ground arith)

-- Less equity never saves an account: with all else equal, one whose limits are broken fails at any
-- lower equity too.
pub decision_mono :
    (i : ChallengeDecisionInput) (e : Amount)
    → (i.status ≡ active) ⊎ (i.status ≡ funded)
    → IsBroken i
    → e ≤ℤ i.equity
    → (determine_challenge_transition (record i { equity = e })).next_status ≡ failed
unfolding determine_challenge_transition
decision_mono i e s b h = ground (arith, round_currency_mono e i.equity h)
