-- ===== src/Services/Engine/Transitions.antt =====
-- The writes that the transitions of an account share: certificates and the next phase.
use mella_dashboard.Base.{
  ℕ, suc, ◌==◌, pos, Bool, true, false, ◌&&◌, Option, none, some, List, [], ◌∷◌, any, if◌then◌else◌,
  lookup, insert,
}
use mella_dashboard.Challenge.Rules.{is_funded_phase}
use mella_dashboard.Services.Store.{
  TemplateSnapshot, last_phase, own_rules, next_phase_snapshot, TradingAccount, Db, Note,
  phase_advanced, told_user, certificate, CertificateType, challenge_passed_certificate,
  funded_certificate, payout_certificate,
}
use mella_dashboard.Services.Engine.{initial_status, new_account_columns}

-- `tradingAccount.update`: a missing row stays missing.
unfoldable pub update_account : ℕ → (TradingAccount → TradingAccount) → Db → Db
update_account id f db = elim (lookup id db.accounts) [
  | none ↦ db
  | some a ↦ record db { accounts = insert id (f a) db.accounts }
]

abbrev pub add_notes : List Note → Db → Db
add_notes [] db = db
add_notes (n ∷ ns) db = add_notes ns (record db { notes = n ∷ db.notes })

abbrev same_type : CertificateType → CertificateType → Bool
same_type challenge_passed_certificate challenge_passed_certificate = true
same_type funded_certificate funded_certificate = true
same_type payout_certificate payout_certificate = true
same_type _ _ = false

abbrev is_certificate : CertificateType → ℕ → Note → Bool
is_certificate t id (certificate u j) = same_type t u && id == j
is_certificate t id _ = false

-- `issueCertificate`: one of a type for an account, and the trader is told of a new one.
unfoldable pub issue_certificate : CertificateType → ℕ → ℕ → Db → Db
issue_certificate t id user_id db =
    if any (is_certificate t id) db.notes
    then db
    else add_notes (certificate t id ∷ told_user user_id ∷ []) db

-- The rules of the next phase: those frozen at the purchase, else the live template if it is active.
unfoldable pub next_rules : TemplateSnapshot → Db → Option TemplateSnapshot
next_rules snapshot db = elim (next_phase_snapshot snapshot) [
  | some next ↦ some next
  | none ↦ elim (own_rules snapshot).next_phase_id [
    | none ↦ none
    | some template_id ↦ elim (lookup template_id db.templates) [
      | none ↦ none
      | some t ↦ if t.is_active then some (last_phase t.rules) else none
    ]
  ]
]

abbrev pub follows : ℕ → TradingAccount → Bool
follows id a = elim a.previous_account [ some before ↦ before == id | none ↦ false ]

-- The row of a new account; `new_account_columns` sets the rest of its columns.
unfoldable pub created_account : ℕ → ℕ → TemplateSnapshot → ℕ → TradingAccount
unfolding new_account_columns
created_account user_id previous next now =
    let phase = (own_rules next).phase in
    new_account_columns next now (record {
      user_id = user_id;
      snapshot = next;
      phase = phase;
      status = initial_status phase;
      previous_account = some previous;
      starting_balance = pos 0;
      balance = pos 0;
      equity = pos 0;
      high_water_mark = pos 0;
      daily_anchor_balance = pos 0;
      daily_anchor_date = 0;
      realized_pnl = pos 0;
      trade_count = 0;
      win_count = 0;
      loss_count = 0;
      gross_profit = pos 0;
      gross_loss = pos 0;
      margin_used = pos 0;
      created_at = now;
      expires_at = none;
      passed_at = none;
      failed_at = none;
      funded_at = if is_funded_phase phase then some now else none;
      status_changed_at = now;
      last_trade_at = none;
      failure_reason = none;
    })

abbrev pub create_next : ℕ → ℕ → TemplateSnapshot → ℕ → Db → Db
create_next id user_id next now db =
    let created = created_account user_id id next now in
    let written =
      add_notes (phase_advanced db.next_id ∷ [])
        (record db { accounts = (db.next_id, created) ∷ db.accounts; next_id = suc db.next_id }) in
    if is_funded_phase created.phase
    then issue_certificate funded_certificate db.next_id user_id written
    else written

-- `advanceToNextPhase`. The constraint on `previousAccountId` refuses a second follower; the code
-- catches the error, but the statement that failed has aborted the transaction: none.
unfoldable pub advance_to_next_phase : ℕ → ℕ → TemplateSnapshot → ℕ → Db → Option Db
unfolding created_account
advance_to_next_phase id user_id snapshot now db = elim (next_rules snapshot db) [
  | none ↦ some db
  | some next ↦
      if any (λ row. follows id row.1) db.accounts
      then none
      else some (create_next id user_id next now db)
]

-- The columns `numericFields` of one row, written over another.
unfoldable pub numeric_fields : TradingAccount → TradingAccount → TradingAccount
numeric_fields fresh a = record a {
  balance = fresh.balance;
  equity = fresh.equity;
  high_water_mark = fresh.high_water_mark;
  daily_anchor_balance = fresh.daily_anchor_balance;
  daily_anchor_date = fresh.daily_anchor_date;
  expires_at = fresh.expires_at;
}
