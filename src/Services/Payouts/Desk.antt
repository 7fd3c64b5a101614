-- ===== src/Services/Payouts/Desk.antt =====
-- The payments desk of src/lib/services/payouts.ts over time: requests and decisions of several people
-- at once, each decision in two moves, its read and its claim.
use mella_dashboard.Base.{ℕ, ◌≡◌, some, List, [], lookup, insert}
use mella_dashboard.Services.Store.{Db, done}
use mella_dashboard.Services.Payouts.{Payout, Treasury, PayoutInput, create_payout}
use mella_dashboard.Services.Payouts.Deciding.{Decision, decide_read}

-- The payments desk: the tables, and the rows that decisions in progress have read, by session.
pub record Desk : Type 0 where
  pub treasury : Treasury
  pub reads : List (ℕ × (ℕ × Payout))

-- One step of the desk: a request, the read of a decision, its writes, or any other change of the
-- database of accounts.
pub data Step : Desk → Desk → Type 0 where
  requests :
      {d : Desk} (now : ℕ) (i : PayoutInput) (after : Treasury)
      → create_payout now i d.treasury ≡ done after
      → Step d (record d { treasury = after })
  reads_row :
      {d : Desk} (session id : ℕ) (p : Payout)
      → lookup id d.treasury.payouts ≡ some p
      → Step d (record d { reads = insert session (id, p) d.reads })
  decides :
      {d : Desk} (session now id : ℕ) (v : Decision) (actor : ℕ) (before : Payout)
      (after : Treasury)
      → lookup session d.reads ≡ some (id, before)
      → decide_read now id v actor before d.treasury ≡ done after
      → Step d (record d { treasury = after })
  trades : {d : Desk} (db : Db) → Step d (record d { treasury = record d.treasury { db = db } })

pub data Run : Desk → Desk → Type 0 where
  stay : {d : Desk} → Run d d
  step : {d e f : Desk} → Run d e → Step e f → Run d f

-- No payout yet, and no decision in progress.
abbrev pub IsStart : Desk → Type 0
IsStart d = (d.treasury.payouts ≡ []) × (d.reads ≡ [])
