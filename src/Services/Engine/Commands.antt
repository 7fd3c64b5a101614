-- ===== src/Services/Engine/Commands.antt =====
-- `evaluateAccount`, `failAccountForBreach`, `setAccountStatusManually` and `resetAccount` of
-- src/lib/services/challengeEngine.ts.
use mella_dashboard.Base.{
  ℕ, ◌==◌, pos, max_ℤ, Bool, not, ◌&&◌, ◌||◌, Option, none, some, [], ◌∷◌, map, any, is_some,
  if◌then◌else◌, lookup, insert,
}
use mella_dashboard.Money.{Amount, round_currency}
use mella_dashboard.Challenge.Types.{
  AccountStatus, active, passed, failed, funded, FailureReason, ChallengeDecision,
}
use mella_dashboard.Challenge.Rules.{determine_challenge_transition, is_funded_phase}
use mella_dashboard.Challenge.Manual.{same, is_legal_manual_transition}
use mella_dashboard.Services.Reset.{current_day_start}
use mella_dashboard.Services.Store.{
  own_rules, RecordedReason, by_rule, by_admin, admin, TradingAccount, Trade, Position, closed,
  admin_close, Db, status_auto_transition, status_manual_change, account_reset, told_user,
  challenge_passed_certificate, is_open, Outcome, done, refused, not_found, conflict,
}
use mella_dashboard.Services.Engine.{
  initial_status, new_account_columns, backfill_aggregates, refresh, decision_input,
}
use mella_dashboard.Services.Engine.Transitions.{
  update_account, add_notes, issue_certificate, advance_to_next_phase, numeric_fields, follows,
}

-- What one evaluation has read and decided, before it writes.
pub record Evaluation : Type 0 where
  pub previous_status : AccountStatus
  pub fresh : TradingAccount
  pub decision : ChallengeDecision

unfoldable pub read_evaluation : ℕ → ℕ → Db → TradingAccount → Evaluation
read_evaluation now id db a =
    let fresh = refresh now id db (backfill_aggregates id db.trades a) in
    record {
      previous_status = a.status;
      fresh = fresh;
      decision = determine_challenge_transition (decision_input now id db fresh);
    }

abbrev recorded : Option FailureReason → Option RecordedReason
recorded none = none
recorded (some r) = some (by_rule r)

-- The row after a claimed transition.
unfoldable pub transitioned : ℕ → Evaluation → TradingAccount → TradingAccount
unfolding numeric_fields
transitioned now e a =
    let status = e.decision.next_status in
    record (numeric_fields e.fresh a) {
      status = status;
      passed_at = if same status passed then some now else e.fresh.passed_at;
      failed_at = if same status failed then some now else e.fresh.failed_at;
      status_changed_at = now;
      failure_reason = recorded e.decision.failure_reason;
    }

-- After the claim: the audit entry, the notification, and for a pass the certificate and next phase;
-- none when the transaction is aborted.
unfoldable pub after_claim : ℕ → ℕ → Evaluation → Db → Option Db
after_claim now id e db =
    let told = add_notes (status_auto_transition id ∷ told_user e.fresh.user_id ∷ []) db in
    if same e.decision.next_status passed
    then advance_to_next_phase id e.fresh.user_id e.fresh.snapshot now
        (issue_certificate challenge_passed_certificate id e.fresh.user_id told)
    else some told

-- A transaction that was aborted is rolled back when it ends.
abbrev pub or_rolled_back : Db → Option Db → Db
or_rolled_back db none = db
or_rolled_back db (some after) = after

-- The writes of an evaluation, on a database that may have changed since it was read.
unfoldable pub commit_evaluation : ℕ → ℕ → Evaluation → Db → Db
commit_evaluation now id e db =
    if same e.decision.next_status e.previous_status
    then update_account id (numeric_fields e.fresh) db
    else elim (lookup id db.accounts) [
      | none ↦ db
      | some a ↦
          if same a.status e.previous_status
          then or_rolled_back db (after_claim now id e (update_account id (transitioned now e) db))
          else update_account id (numeric_fields e.fresh) db
    ]

-- `ensureAggregatesBackfilled` writes before the rest is read.
unfoldable pub evaluate_account : ℕ → ℕ → Db → Outcome Db
evaluate_account now id db = elim (lookup id db.accounts) [
  | none ↦ refused not_found
  | some a ↦
      let filled = update_account id (backfill_aggregates id db.trades) db in
      done (commit_evaluation now id (read_evaluation now id db a) filled)
]

abbrev pub is_trading : AccountStatus → Bool
is_trading s = same s active || same s funded

-- The row of an account that the live engine fails.
abbrev pub failed_row : ℕ → FailureReason → Amount → TradingAccount → TradingAccount
failed_row now reason equity a = record a {
  status = failed;
  failed_at = some now;
  status_changed_at = now;
  failure_reason = some (by_rule reason);
  equity = round_currency equity;
}

unfoldable pub fail_account_for_breach : ℕ → ℕ → FailureReason → Amount → Db → Outcome Db
fail_account_for_breach now id reason equity db = elim (lookup id db.accounts) [
  | none ↦ refused not_found
  | some a ↦
      if is_trading a.status
      then done (
          add_notes (status_auto_transition id ∷ told_user a.user_id ∷ [])
            (update_account id (failed_row now reason equity) db))
      else done db
]

abbrev given_reason : Option ℕ → RecordedReason
given_reason none = admin
given_reason (some text) = by_admin text

-- The row after a manual change; a reinstated account starts from its equity.
unfoldable pub set_status : ℕ → AccountStatus → Option ℕ → TradingAccount → TradingAccount
set_status now status reason a =
    let reinstating = is_trading status in
    record a {
      status = status;
      status_changed_at = now;
      failed_at =
          if same status failed then some now else if reinstating then none else a.failed_at;
      funded_at = if same status funded && not (is_some a.funded_at) then some now else a.funded_at;
      failure_reason =
          if same status failed
          then some (given_reason reason)
          else if reinstating
          then none
          else a.failure_reason;
      high_water_mark =
          if reinstating then max_ℤ a.equity a.starting_balance else a.high_water_mark;
      daily_anchor_balance = if reinstating then a.equity else a.daily_anchor_balance;
      daily_anchor_date =
          if reinstating
          then current_day_start (own_rules a.snapshot).reset_time now
          else a.daily_anchor_date;
    }

unfoldable pub set_account_status_manually : ℕ → ℕ → AccountStatus → Option ℕ → Db → Outcome Db
set_account_status_manually now id status reason db = elim (lookup id db.accounts) [
  | none ↦ refused not_found
  | some a ↦
      if is_legal_manual_transition a.status status a.phase
      then done (
          add_notes (status_manual_change id ∷ told_user a.user_id ∷ [])
            (update_account id (set_status now status reason) db))
      else refused conflict
]

-- `updateMany` on the trades of the account that are not archived.
abbrev pub archive : ℕ → ℕ → Trade → Trade
archive now id t =
    if t.account_id == id && not (is_some t.archived_at)
    then record t { archived_at = some now }
    else t

-- `updateMany` on the open positions of the account.
abbrev pub close_by_admin : ℕ → ℕ → ℕ × Position → ℕ × Position
close_by_admin now id p =
    if p.1.account_id == id && is_open p.1.status
    then (
      p.0,
      record p.1 {
        status = closed;
        closed_at = some now;
        close_reason = some admin_close;
        floating_pnl = pos 0;
        margin_used = pos 0;
      },
    )
    else p

-- The row of an account that is reset.
unfoldable pub reset_row : ℕ → TradingAccount → TradingAccount
reset_row now a = record (new_account_columns a.snapshot now a) {
  status = initial_status a.phase;
  status_changed_at = now;
  passed_at = none;
  failed_at = none;
  failure_reason = none;
  funded_at =
      if is_funded_phase a.phase
      then (if is_some a.funded_at then a.funded_at else some now)
      else none;
}

unfoldable pub reset_account : ℕ → ℕ → Db → Outcome Db
reset_account now id db = elim (lookup id db.accounts) [
  | none ↦ refused not_found
  | some a ↦
      if any (λ row. follows id row.1) db.accounts
      then refused conflict
      else done (
          add_notes (account_reset id ∷ []) (record db {
            accounts = insert id (reset_row now a) db.accounts;
            trades = map (archive now id) db.trades;
            positions = map (close_by_admin now id) db.positions;
          }))
]
