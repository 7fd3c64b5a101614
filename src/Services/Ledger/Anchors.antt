-- ===== src/Services/Ledger/Anchors.antt =====
-- `captureDailyAnchor` of src/lib/services/tradeLedger.ts, sent again.
use mella_dashboard.Base.{
  ℕ, ◌≤◌, ◌≡◌, refl, ◌∙◌, ==_iff, none, some, arith, lookup, insert-lookup, Option-cases, inl, inr,
}
use mella_dashboard.Money.{Amount}
use mella_dashboard.Services.Store.{TradingAccount, Db}
use mella_dashboard.Services.Engine.Transitions.{update_account}
use mella_dashboard.Services.Engine.Claims.{update-lookup}
use mella_dashboard.Services.Ledger.Marks.{anchored, capture_daily_anchor}

update-missing :
    (id : ℕ) (f : TradingAccount → TradingAccount) (db : Db)
    → lookup id db.accounts ≡ none
    → update_account id f db ≡ db
unfolding update_account
update-missing id f db h = rw (h, update_account) refl

update-same :
    (id : ℕ) (f : TradingAccount → TradingAccount) (a : TradingAccount) (db : Db)
    → lookup id db.accounts ≡ some a
    → f a ≡ a
    → update_account id f db ≡ db
unfolding update_account
update-same id f a db h e =
    rw (h, update_account) (rw e (rw (insert-lookup id a db.accounts h) refl))

anchored-anchored :
    (boundary earlier : ℕ) (equity other : Amount) (a : TradingAccount)
    → earlier ≤ boundary
    → anchored other earlier (anchored equity boundary a) ≡ anchored equity boundary a
unfolding anchored
anchored-anchored b c v w a h = ground arith

-- An anchor is captured once for a boundary: a second capture for the same boundary or an earlier one
-- changes nothing, at whatever equity.
pub capture_daily_anchor_once :
    (id boundary earlier : ℕ) (equity other : Amount) (db : Db)
    → earlier ≤ boundary
    → let after = capture_daily_anchor id equity boundary db in
      capture_daily_anchor id other earlier after ≡ after
unfolding capture_daily_anchor
capture_daily_anchor_once id b c v w db h = elim (Option-cases (lookup id db.accounts)) [
  | inl e ↦ rw (update-missing id (anchored v b) db e) (update-missing id (anchored w c) db e)
  | inr (a, e) ↦
      update-same id (anchored w c) (anchored v b a) _
        (update-lookup id id (anchored v b) a db e ∙ rw ((==_iff id id).1 refl) refl)
        (anchored-anchored b c v w a h)
]
