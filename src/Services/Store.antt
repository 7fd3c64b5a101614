-- ===== src/Services/Store.antt =====
-- The rows of prisma/schema.prisma that the services read and write, and the database. An identifier
-- is a number; a new row takes the next one. Texts that no service branches on are left out.
use mella_dashboard.Base.{ℕ, Bool, true, false, Option, none, some, List}
use mella_dashboard.Money.{Amount, Percent}
use mella_dashboard.Challenge.Types.{
  AccountStatus, TemplatePhase, FailureReason, ChallengeRuleSnapshot,
}
use mella_dashboard.Trading.Pricing.{Price, Side, OrderKind}
use mella_dashboard.Services.Reset.{ResetTime}

-- The fields of a frozen template that the services read.
pub record PhaseRules : Type 0 where
  pub template_id : ℕ
  pub phase : TemplatePhase
  pub starting_balance : Amount
  pub rules : ChallengeRuleSnapshot
  pub duration_days : Option ℕ
  pub reset_time : ResetTime
  pub consistency_requirement : Option Percent
  pub profit_split : Option Percent
  pub next_phase_id : Option ℕ

-- A frozen template with the chain of its next phases.
pub data TemplateSnapshot : Type 0 where
  last_phase : PhaseRules → TemplateSnapshot
  phase_then : PhaseRules → TemplateSnapshot → TemplateSnapshot

abbrev pub own_rules : TemplateSnapshot → PhaseRules
own_rules (last_phase r) = r
own_rules (phase_then r next) = r

abbrev pub next_phase_snapshot : TemplateSnapshot → Option TemplateSnapshot
next_phase_snapshot (last_phase r) = none
next_phase_snapshot (phase_then r next) = some next

-- A template as it stands now: whether its status is ACTIVE, and its rules.
pub record Template : Type 0 where
  pub is_active : Bool
  pub rules : PhaseRules

-- The column `failureReason`: a rule's, or an administrator's text.
pub data RecordedReason : Type 0 where
  by_rule : FailureReason → RecordedReason
  by_admin : ℕ → RecordedReason
  admin : RecordedReason

pub record TradingAccount : Type 0 where
  pub user_id : ℕ
  pub snapshot : TemplateSnapshot
  pub phase : TemplatePhase
  pub status : AccountStatus
  pub previous_account : Option ℕ
  pub starting_balance : Amount
  pub balance : Amount
  pub equity : Amount
  pub high_water_mark : Amount
  pub daily_anchor_balance : Amount
  pub daily_anchor_date : ℕ
  pub realized_pnl : Amount
  pub trade_count : ℕ
  pub win_count : ℕ
  pub loss_count : ℕ
  pub gross_profit : Amount
  pub gross_loss : Amount
  pub margin_used : Amount
  pub created_at : ℕ
  pub expires_at : Option ℕ
  pub passed_at : Option ℕ
  pub failed_at : Option ℕ
  pub funded_at : Option ℕ
  pub status_changed_at : ℕ
  pub last_trade_at : Option ℕ
  pub failure_reason : Option RecordedReason

pub data RowStatus : Type 0 where
  opened closed : RowStatus

abbrev pub is_open : RowStatus → Bool
is_open opened = true
is_open closed = false

pub data CloseReason : Type 0 where
  manual stop_loss take_profit breach admin_close stop_out out_of_time weekend overnight news :
      CloseReason

-- A volume is a number of 10^-10 lots.
pub record Position : Type 0 where
  pub account_id : ℕ
  pub symbol : ℕ
  pub side : Side
  pub volume : ℕ
  pub entry_price : Price
  pub stop_loss : Option Price
  pub take_profit : Option Price
  pub margin_used : Amount
  pub current_price : Price
  pub floating_pnl : Amount
  pub status : RowStatus
  pub opened_at : ℕ
  pub closed_at : Option ℕ
  pub close_price : Option Price
  pub close_reason : Option CloseReason

pub record Trade : Type 0 where
  pub id : ℕ
  pub account_id : ℕ
  pub position_id : Option ℕ
  pub volume : ℕ
  pub entry_price : Price
  pub exit_price : Price
  pub open_time : ℕ
  pub close_time : Option ℕ
  pub profit : Amount
  pub commission : Amount
  pub swap : Amount
  pub net_profit : Amount
  pub status : RowStatus
  pub archived_at : Option ℕ

pub data OrderStatus : Type 0 where
  pending filled cancelled rejected : OrderStatus

pub record Order : Type 0 where
  pub account_id : ℕ
  pub client_order_id : ℕ
  pub symbol : ℕ
  pub side : Side
  pub kind : OrderKind
  pub volume : ℕ
  pub price : Option Price
  pub stop_loss : Option Price
  pub take_profit : Option Price
  pub status : OrderStatus
  pub filled_price : Option Price
  pub position_id : Option ℕ

pub data LedgerEntryType : Type 0 where
  trade_pnl commission swap payout adjustment : LedgerEntryType

pub record LedgerEntry : Type 0 where
  pub account_id : ℕ
  pub type : LedgerEntryType
  pub amount : Amount
  pub ref_id : ℕ

pub record EquitySnapshot : Type 0 where
  pub account_id : ℕ
  pub balance : Amount
  pub equity : Amount
  pub margin_used : Amount
  pub at : ℕ

pub data CertificateType : Type 0 where
  challenge_passed_certificate funded_certificate payout_certificate : CertificateType

-- What is written for people: audit entries, notifications and certificates, by their subject.
pub data Note : Type 0 where
  status_auto_transition status_manual_change account_reset phase_advanced : ℕ → Note
  payout_requested payout_decided : ℕ → Note
  referral_attached reward_created reward_voided reward_paid_but_reversed reward_decided : ℕ → Note
  purchase_activated purchase_failed purchase_reversed payment_initiated over_redeemed : ℕ → Note
  told_user : ℕ → Note
  certificate : CertificateType → ℕ → Note

-- The database: each table newest first, and the identifier of the next new row.
pub record Db : Type 0 where
  pub templates : List (ℕ × Template)
  pub accounts : List (ℕ × TradingAccount)
  pub positions : List (ℕ × Position)
  pub trades : List Trade
  pub orders : List (ℕ × Order)
  pub ledger : List LedgerEntry
  pub snapshots : List EquitySnapshot
  pub notes : List Note
  pub next_id : ℕ

-- How a service fails.
pub data Failure : Type 0 where
  not_found conflict forbidden : Failure

pub data Outcome {ℓ} (A : Type ℓ) : Type ℓ where
  done : A → Outcome A
  refused : Failure → Outcome A
