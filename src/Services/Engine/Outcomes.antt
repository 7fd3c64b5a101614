-- ===== src/Services/Engine/Outcomes.antt =====
-- The outcome of `evaluateAccount` and `failAccountForBreach` on the account's row.
use mella_dashboard.Base.{
  ℕ, ◌≡◌, ◌≢◌, ◌⊎◌, refl, ◌∙◌, ==_iff, true, some, List, [], ◌∷◌, arith, lookup, Bool-cases, inl,
  inr, sym,
}
use mella_dashboard.Money.{Amount}
use mella_dashboard.Challenge.Types.{passed, FailureReason, ChallengeDecision}
use mella_dashboard.Challenge.Rules.{determine_challenge_transition}
use mella_dashboard.Challenge.Manual.{same}
use mella_dashboard.Services.Store.{
  TradingAccount, Trade, Db, done, status_auto_transition, told_user,
}
use mella_dashboard.Services.Engine.{backfill_aggregates, refresh, decision_input}
use mella_dashboard.Services.Engine.Transitions.{update_account, numeric_fields, add_notes}
use mella_dashboard.Services.Engine.Commands.{
  Evaluation, commit_evaluation, transitioned, fail_account_for_breach, evaluate_account,
  read_evaluation, is_trading, failed_row,
}
use mella_dashboard.Services.Engine.Claims.{
  has_follower, insert-followers, claim-cases, update-lookup, update-next, commit-idle, same_iff,
}

backfill-status :
    (id now : ℕ) (a : TradingAccount) (db : Db)
    → (backfill_aggregates id db.trades a).status ≡ a.status
unfolding backfill_aggregates
backfill-status id now a db = ground arith

backfill-previous :
    (id : ℕ) (trades : List Trade) (a : TradingAccount)
    → (backfill_aggregates id trades a).previous_account ≡ a.previous_account
unfolding backfill_aggregates
backfill-previous id trades a = ground arith

-- The row after an evaluation: the decision's status, and the figures of the refreshed account.
abbrev pub IsEvaluated : ChallengeDecision → TradingAccount → TradingAccount → Type 0
IsEvaluated decision fresh row =
    (row.status ≡ decision.next_status)
    × (row.balance ≡ fresh.balance)
    × (row.equity ≡ fresh.equity)
    × (row.high_water_mark ≡ fresh.high_water_mark)
    × (row.daily_anchor_balance ≡ fresh.daily_anchor_balance)

commit-row :
    (now id : ℕ) (e : Evaluation) (a : TradingAccount) (db : Db)
    → lookup id db.accounts ≡ some a
    → id ≢ db.next_id
    → a.status ≡ e.previous_status
    → ((commit_evaluation now id e db ≡ db)
        × (e.decision.next_status ≡ passed)
        × (has_follower id db.accounts ≡ true))
      ⊎ ((row : TradingAccount) × (lookup id (commit_evaluation now id e db).accounts ≡ some row)
          × IsEvaluated e.decision e.fresh row)
unfolding numeric_fields transitioned
commit-row now id e a db h f k = elim (Bool-cases (same e.decision.next_status e.previous_status)) [
  | inl s ↦ inr (
    numeric_fields e.fresh a,
    rw (commit-idle now id e db s)
        (update-lookup id id (numeric_fields e.fresh) a db h ∙ rw ((==_iff id id).1 refl) refl),
    (k ∙ sym (same_iff _ _ s), refl, refl, refl, refl),
  )
  | inr s ↦ elim (claim-cases now id e a db h f k s) [
    | inl rolled ↦ inl rolled
    | inr row ↦ inr (transitioned now e a, row, (refl, refl, refl, refl, refl))
  ]
]

backfill-followers :
    (id : ℕ) (a : TradingAccount) (db : Db)
    → lookup id db.accounts ≡ some a
    → has_follower id (update_account id (backfill_aggregates id db.trades) db).accounts
      ≡ has_follower id db.accounts
unfolding update_account
backfill-followers id a db h =
    rw (h, update_account)
      (insert-followers id id a (backfill_aggregates id db.trades a) db.accounts h
        (backfill-previous id db.trades a))

-- An evaluation of a stored account always succeeds, and its row then has the status that the rules
-- decide on the refreshed and backfilled account, and the figures of that account. The one exception
-- is a pass of an account that has a next phase already: it is rolled back to the backfilled account.
pub evaluate_account_lem :
    (now id : ℕ) (a : TradingAccount) (db : Db)
    → lookup id db.accounts ≡ some a
    → id ≢ db.next_id
    → let fresh = refresh now id db (backfill_aggregates id db.trades a) in
      let decision = determine_challenge_transition (decision_input now id db fresh) in
      (after : Db) × (evaluate_account now id db ≡ done after)
      × (((decision.next_status ≡ passed)
            × (has_follower id db.accounts ≡ true)
            × (lookup id after.accounts ≡ some (backfill_aggregates id db.trades a)))
          ⊎ ((row : TradingAccount) × (lookup id after.accounts ≡ some row)
              × IsEvaluated decision fresh row))
unfolding evaluate_account read_evaluation
evaluate_account_lem now id a db h f =
    let e = read_evaluation now id db a in
    let fill = backfill_aggregates id db.trades in
    let filled = update_account id fill db in
    let stored : lookup id filled.accounts ≡ some (fill a) =
      update-lookup id id fill a db h ∙ rw ((==_iff id id).1 refl) refl in
    (
      commit_evaluation now id e filled,
      rw (h, evaluate_account) refl,
      elim (commit-row now id e (fill a) filled stored (rw (update-next id fill db) f)
          (backfill-status id now a db)) [
            | inl (same_db, p, q) ↦
                inl (p, sym (backfill-followers id a db h) ∙ q, rw same_db stored)
            | inr written ↦ inr written
          ],
    )

-- Failing an account on a breach twice is failing it once, with the first reason kept.
pub fail_account_for_breach_idem :
    (now later id : ℕ) (r s : FailureReason) (v w : Amount) (a : TradingAccount) (db : Db)
    → lookup id db.accounts ≡ some a
    → (after : Db) × (fail_account_for_breach now id r v db ≡ done after)
      × (fail_account_for_breach later id s w after ≡ done after)
unfolding fail_account_for_breach
fail_account_for_breach_idem now later id r s v w a db h = elim (Bool-cases (is_trading a.status)) [
  | inl t ↦
      let fail = failed_row now r v in
      let after =
        add_notes (status_auto_transition id ∷ told_user a.user_id ∷ [])
          (update_account id fail db) in
      let stored : lookup id after.accounts ≡ some (fail a) =
        update-lookup id id fail a db h ∙ rw ((==_iff id id).1 refl) refl in
      (
        after,
        rw (h, fail_account_for_breach) (rw t refl),
        rw (stored, fail_account_for_breach) refl,
      )
  | inr t ↦
      (db, rw (h, fail_account_for_breach) (rw t refl), rw (h, fail_account_for_breach) (rw t refl))
]
