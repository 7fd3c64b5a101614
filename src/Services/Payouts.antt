-- ===== src/Services/Payouts.antt =====
-- src/lib/services/payouts.ts: what an account can be paid, and the request of a payout. The
-- decisions on a request stand in Deciding. Texts and the destination of the transfer are left out.
pub mod Deciding
pub mod Outcomes
pub mod Requesting
pub mod Desk
pub mod Separation
pub mod Control
pub mod Drawdown
pub mod Finality
pub mod Balance
pub mod Progress
mod Examples
use mella_dashboard.Base.{
  ℕ, suc, ◌-◌, ◌/◌, ◌==◌, ltb, pos, ltb_ℤ, max_ℤ, ◌+ℤ◌, ◌-ℤ◌, Bool, true, false, not, ◌&&◌, ◌||◌,
  Option, none, some, List, [], ◌∷◌, any, keep, if◌then◌else◌, lookup,
}
use mella_dashboard.Money.{Amount, Percent, round_currency, round_percent_of}
use mella_dashboard.Challenge.Types.{funded}
use mella_dashboard.Challenge.Manual.{same}
use mella_dashboard.Challenge.Consistency.{ConsistencyResult, consistency_check}
use mella_dashboard.Services.Reset.{day_ms}
use mella_dashboard.Services.Store.{
  TradingAccount, own_rules, Db, payout_requested, told_user, Outcome, done, refused, Failure,
  not_found, conflict,
}
use mella_dashboard.Services.Metrics.{sum_of, daily_net_profits}
use mella_dashboard.Services.Engine.{positive}
use mella_dashboard.Services.Engine.Transitions.{add_notes}
use mella_dashboard.Services.Engine.Commands.{evaluate_account}

pub data PayoutStatus : Type 0 where
  pending approved paid rejected : PayoutStatus

pub record Payout : Type 0 where
  pub account_id : ℕ
  pub user_id : ℕ
  pub amount : Amount
  pub status : PayoutStatus
  pub created_by : Option ℕ
  pub approved_by : Option ℕ
  pub approved_at : Option ℕ
  pub paid_by : Option ℕ
  pub paid_at : Option ℕ
  pub rejected_by : Option ℕ
  pub rejected_at : Option ℕ
  pub requested_at : ℕ

-- A row of the identity checks: the user, and whether its status is APPROVED.
pub record KycSubmission : Type 0 where
  pub user_id : ℕ
  pub is_approved : Bool

-- The database with the tables of payouts and identity checks. Payouts are numbered on their own.
pub record Treasury : Type 0 where
  pub db : Db
  pub payouts : List (ℕ × Payout)
  pub kyc : List KycSubmission
  pub next_payout : ℕ

abbrev pub is_pending : PayoutStatus → Bool
is_pending pending = true
is_pending approved = false
is_pending paid = false
is_pending rejected = false

abbrev pub is_approved : PayoutStatus → Bool
is_approved approved = true
is_approved pending = false
is_approved paid = false
is_approved rejected = false

-- `MIN_PAYOUT_ETB`.
abbrev pub min_payout : Amount
min_payout = pos 500_000_000

-- `MIN_FUNDED_DAYS_BEFORE_PAYOUT`.
abbrev pub min_funded_days : ℕ
min_funded_days = 14

-- `profitSplit ?? 80`.
abbrev pub profit_split_percent : TradingAccount → Percent
profit_split_percent a = elim (own_rules a.snapshot).profit_split [ none ↦ pos 8000 | some p ↦ p ]

-- The amounts still PENDING or APPROVED of an account.
unfoldable pub committed : ℕ → List (ℕ × Payout) → Amount
committed id payouts =
    sum_of (λ row. row.1.amount)
      (keep (λ row. row.1.account_id == id && (is_pending row.1.status || is_approved row.1.status))
        payouts)

-- `computeConsistency`: the rule is off without a positive requirement.
unfoldable pub compute_consistency : ℕ → TradingAccount → Db → ConsistencyResult
compute_consistency id a db =
    let rules = own_rules a.snapshot in
    if positive rules.consistency_requirement
    then consistency_check (daily_net_profits id rules.reset_time db.trades)
        rules.consistency_requirement
    else consistency_check [] none

unfoldable pub funded_days : ℕ → TradingAccount → ℕ
funded_days now a = elim a.funded_at [ none ↦ 0 | some at ↦ (now - at) / day_ms ]

abbrev is_verified : ℕ → KycSubmission → Bool
is_verified user k = k.user_id == user && k.is_approved

pub record PayoutAvailability : Type 0 where
  pub profit : Amount
  pub trader_share : Amount
  pub already_committed : Amount
  pub available : Amount
  pub kyc_approved : Bool
  pub funded_days : ℕ
  pub consistency : ConsistencyResult
  pub eligible : Bool

-- `round(max(0, profit) * split)` of the rounded profit.
unfoldable pub trader_share : TradingAccount → Amount
trader_share a =
    round_percent_of (max_ℤ (pos 0) (round_currency (a.balance -ℤ a.starting_balance)))
      (profit_split_percent a)

-- `computePayoutAvailability` for the stored account.
unfoldable pub compute_payout_availability : ℕ → ℕ → TradingAccount → Treasury → PayoutAvailability
compute_payout_availability now id a t =
    let already_committed = round_currency (committed id t.payouts) in
    let available = round_currency (max_ℤ (pos 0) (trader_share a -ℤ already_committed)) in
    let kyc_approved = any (is_verified a.user_id) t.kyc in
    let consistency = compute_consistency id a t.db in
    record {
      profit = round_currency (a.balance -ℤ a.starting_balance);
      trader_share = trader_share a;
      already_committed = already_committed;
      available = available;
      kyc_approved = kyc_approved;
      funded_days = funded_days now a;
      consistency = consistency;
      eligible =
          same a.status funded
          && kyc_approved
          && not (ltb (funded_days now a) min_funded_days)
          && not (ltb_ℤ available min_payout)
          && consistency.ok;
    }

pub record PayoutInput : Type 0 where
  pub trading_account_id : ℕ
  pub amount : Amount
  pub requested_by : ℕ
  pub by_admin : Bool

-- The checks of `createPayout` inside its transaction, in their order.
unfoldable pub request_refusal : PayoutInput → TradingAccount → PayoutAvailability → Option Failure
request_refusal i a v =
    if not i.by_admin && not (a.user_id == i.requested_by)
    then some not_found
    else if not (same a.status funded)
    then some conflict
    else if not v.kyc_approved
    then some conflict
    else if ltb v.funded_days min_funded_days
    then some conflict
    else if not v.consistency.ok
    then some conflict
    else if ltb_ℤ v.available (round_currency i.amount)
    then some conflict
    else none

unfoldable pub requested_payout : ℕ → PayoutInput → TradingAccount → Payout
requested_payout now i a = record {
  account_id = i.trading_account_id;
  user_id = a.user_id;
  amount = round_currency i.amount;
  status = pending;
  created_by = some i.requested_by;
  approved_by = none;
  approved_at = none;
  paid_by = none;
  paid_at = none;
  rejected_by = none;
  rejected_at = none;
  requested_at = now;
}

unfoldable pub write_request : ℕ → PayoutInput → TradingAccount → Treasury → Treasury
write_request now i a t = record t {
  db = add_notes (payout_requested t.next_payout ∷ told_user a.user_id ∷ []) t.db;
  payouts = (t.next_payout, requested_payout now i a) ∷ t.payouts;
  next_payout = suc t.next_payout;
}

-- The transaction of `createPayout`.
unfoldable pub request_transaction : ℕ → PayoutInput → Treasury → Outcome Treasury
request_transaction now i t = elim (lookup i.trading_account_id t.db.accounts) [
  | none ↦ refused not_found
  | some a ↦ elim (request_refusal i a (compute_payout_availability now i.trading_account_id a t)) [
    | some f ↦ refused f
    | none ↦ done (write_request now i a t)
  ]
]

-- `createPayout`: a fresh evaluation of the account comes before the transaction.
unfoldable pub create_payout : ℕ → PayoutInput → Treasury → Outcome Treasury
create_payout now i t =
    if ltb_ℤ (round_currency i.amount) min_payout
    then refused conflict
    else elim (evaluate_account now i.trading_account_id t.db) [
      | refused f ↦ refused f
      | done db ↦ request_transaction now i (record t { db = db })
    ]
