-- ===== src/Services/Payouts/Deciding.antt =====
-- `decidePayout` of src/lib/services/payouts.ts: the decision on a payout that was read, its claim by
-- compare-and-swap on the stored row, and what a payment writes.
use mella_dashboard.Base.{
  ℕ, ◌==◌, pos, ltb_ℤ, ◌-ℤ◌, ◌*ℤ◌, neg_ℤ, abs, Bool, true, false, not, ◌&&◌, ◌||◌, Option, none,
  some, List, [], ◌∷◌, any, if◌then◌else◌, lookup, insert,
}
use mella_dashboard.Money.{Amount, Percent, round_currency, round_currency_quot}
use mella_dashboard.Services.Store.{
  TradingAccount, LedgerEntry, LedgerEntryType, trade_pnl, commission, swap, payout, adjustment, Db,
  payout_decided, told_user, payout_certificate, Outcome, done, refused, Failure, not_found,
  conflict, forbidden,
}
use mella_dashboard.Services.Engine.Transitions.{add_notes, issue_certificate}
use mella_dashboard.Services.Payouts.{
  PayoutStatus, approved, paid, rejected, Payout, Treasury, is_pending, is_approved,
  profit_split_percent,
}

-- The parameter `status`: APPROVED, PAID or REJECTED.
pub data Decision : Type 0 where
  approve pay reject : Decision

abbrev pub is_actor : Option ℕ → ℕ → Bool
is_actor none actor = false
is_actor (some by) actor = by == actor

-- The statuses `from` that a decision claims.
abbrev pub claims : Decision → PayoutStatus → Bool
claims approve s = is_pending s
claims pay s = is_approved s
claims reject s = is_pending s || is_approved s

-- The checks on the row that was read, before the claim.
unfoldable pub decision_refusal : Decision → ℕ → Payout → Option Failure
decision_refusal approve actor before =
    if is_actor before.created_by actor
    then some forbidden
    else if is_pending before.status
    then none
    else some conflict
decision_refusal pay actor before =
    if not (is_approved before.status)
    then some conflict
    else if is_actor before.approved_by actor
    then some forbidden
    else if is_actor before.created_by actor
    then some forbidden
    else none
decision_refusal reject actor before =
    if is_pending before.status || is_approved before.status then none else some conflict

-- The columns `data` that the claim writes.
unfoldable pub decided : Decision → ℕ → ℕ → Payout → Payout
decided approve actor now p = record p {
  status = approved;
  approved_by = some actor;
  approved_at = some now;
}
decided pay actor now p = record p { status = paid; paid_by = some actor; paid_at = some now }
decided reject actor now p = record p {
  status = rejected;
  rejected_by = some actor;
  rejected_at = some now;
}

-- `round(amount / split)`: the profit that a payment consumes.
unfoldable pub consumed : Percent → Amount → Amount
consumed split amount =
    if ltb_ℤ (pos 0) split
    then round_currency_quot (amount *ℤ pos 10_000) (abs split)
    else round_currency amount

unfoldable pub firm_share : Percent → Amount → Amount
unfolding consumed
firm_share split amount = round_currency (consumed split amount -ℤ amount)

-- Every drawdown reference goes down with the balance.
unfoldable pub debited : Amount → TradingAccount → TradingAccount
debited spent a = record a {
  balance = round_currency (a.balance -ℤ spent);
  equity = a.equity -ℤ spent;
  realized_pnl = a.realized_pnl -ℤ spent;
  high_water_mark = a.high_water_mark -ℤ spent;
  daily_anchor_balance = a.daily_anchor_balance -ℤ spent;
}

abbrev same_entry_type : LedgerEntryType → LedgerEntryType → Bool
same_entry_type trade_pnl trade_pnl = true
same_entry_type commission commission = true
same_entry_type swap swap = true
same_entry_type payout payout = true
same_entry_type adjustment adjustment = true
same_entry_type _ _ = false

-- An entry under the unique key of another. A payout's number is in its own entries alone.
abbrev pub has_key : LedgerEntryType → ℕ → LedgerEntry → Bool
has_key type ref e = same_entry_type type e.type && ref == e.ref_id

-- `createMany` with `skipDuplicates`, for one entry.
unfoldable pub add_entry : LedgerEntry → List LedgerEntry → List LedgerEntry
add_entry e es = if any (has_key e.type e.ref_id) es then es else e ∷ es

unfoldable pub payout_entry : ℕ → Payout → LedgerEntry
payout_entry id p = record {
  account_id = p.account_id;
  type = payout;
  amount = neg_ℤ p.amount;
  ref_id = id;
}

unfoldable pub firm_share_entry : ℕ → Percent → Payout → LedgerEntry
firm_share_entry id split p = record {
  account_id = p.account_id;
  type = adjustment;
  amount = neg_ℤ (firm_share split p.amount);
  ref_id = id;
}

unfoldable pub payment_entries : ℕ → Percent → Payout → List LedgerEntry → List LedgerEntry
payment_entries id split p es =
    let sent = add_entry (payout_entry id p) es in
    if ltb_ℤ (pos 0) (firm_share split p.amount)
    then add_entry (firm_share_entry id split p) sent
    else sent

-- The writes of a payment on the database.
unfoldable pub write_payment : ℕ → Payout → TradingAccount → Db → Db
write_payment id p a db =
    let split = profit_split_percent a in
    issue_certificate payout_certificate id p.user_id (record db {
      accounts = insert p.account_id (debited (consumed split p.amount) a) db.accounts;
      ledger = payment_entries id split p db.ledger;
    })

-- The money of a claimed decision: only a payment moves any.
unfoldable pub settle : Decision → ℕ → Payout → Db → Outcome Db
settle approve id p db = done db
settle reject id p db = done db
settle pay id p db = elim (lookup p.account_id db.accounts) [
  | none ↦ refused not_found
  | some a ↦ done (write_payment id p a db)
]

-- The transaction after its read: `before` is the row read, which may have changed since.
unfoldable pub claim_decision : ℕ → ℕ → Decision → ℕ → Payout → Treasury → Outcome Treasury
claim_decision now id d actor before t = elim (lookup id t.payouts) [
  | none ↦ refused conflict
  | some p ↦
      if claims d p.status
      then elim (settle d id before t.db) [
        | refused f ↦ refused f
        | done db ↦ done (record t {
          db = add_notes (payout_decided id ∷ told_user before.user_id ∷ []) db;
          payouts = insert id (decided d actor now p) t.payouts;
        })
      ]
      else refused conflict
]

unfoldable pub decide_read : ℕ → ℕ → Decision → ℕ → Payout → Treasury → Outcome Treasury
decide_read now id d actor before t = elim (decision_refusal d actor before) [
  | some f ↦ refused f
  | none ↦ claim_decision now id d actor before t
]

-- `decidePayout` with nothing in between.
unfoldable pub decide_payout : ℕ → ℕ → Decision → ℕ → Treasury → Outcome Treasury
decide_payout now id d actor t = elim (lookup id t.payouts) [
  | none ↦ refused not_found
  | some before ↦ decide_read now id d actor before t
]
