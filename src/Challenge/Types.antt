-- ===== src/Challenge/Types.antt =====
-- The statuses and phases of an account, and the inputs and the result of the decision, as the
-- types of src/lib/services/challengeRules.ts and prisma/schema.prisma name them.
use mella_dashboard.Base.{ℕ, Bool, Option, false, leb_ℤ}
use mella_dashboard.Money.{Amount, Percent}

pub data AccountStatus : Type 0 where
  active passed failed funded suspended frozen : AccountStatus

pub data TemplatePhase : Type 0 where
  phase_1 phase_2 funded_phase : TemplatePhase

pub data DrawdownMode : Type 0 where
  static trailing : DrawdownMode

pub AccountStatus-discrete : Discrete AccountStatus
AccountStatus-discrete = hlevel

-- An equity level; `Number.NEGATIVE_INFINITY` stands for a rule that is switched off.
pub data Floor : Type 0 where
  negative_infinity : Floor
  level : Amount → Floor

-- `equity <= floor`.
abbrev pub le_floor : Amount → Floor → Bool
le_floor e negative_infinity = false
le_floor e (level f) = leb_ℤ e f

pub data FailureReason : Type 0 where
  max_drawdown daily_loss expired : FailureReason

pub record ChallengeRuleSnapshot : Type 0 where
  pub max_drawdown : Percent
  pub daily_drawdown : Percent
  pub profit_target : Option Percent
  pub min_trading_days : ℕ
  pub drawdown_mode : Option DrawdownMode

-- `consistency` is `none` where the source has null; else it holds the field `ok`.
pub record ChallengeDecisionInput : Type 0 where
  pub status : AccountStatus
  pub phase : TemplatePhase
  pub starting_balance : Amount
  pub net_pnl : Amount
  pub equity : Amount
  pub high_water_mark : Amount
  pub daily_anchor_balance : Amount
  pub trading_days : ℕ
  pub snapshot : ChallengeRuleSnapshot
  pub is_expired : Bool
  pub consistency : Option Bool

pub record ChallengeDecision : Type 0 where
  pub next_status : AccountStatus
  pub can_auto_evaluate : Bool
  pub dd_breach : Bool
  pub daily_breach : Bool
  pub meets_target : Bool
  pub meets_min_days : Bool
  pub meets_consistency : Bool
  pub failure_reason : Option FailureReason
  pub max_drawdown_floor : Floor
  pub daily_loss_floor : Floor
