-- ===== src/Services/Engine/Resets.antt =====
-- `resetAccount` of src/lib/services/challengeEngine.ts: what is left of the account's history.
use mella_dashboard.Base.{
  ℕ, ◌≡◌, ◌≢◌, ◌%◌, ◌==◌, ◌&&◌, refl, ap, ◌∙◌, ==_iff, false, some, List, [], ◌∷◌, map, any, keep,
  arith, abs, pos, +ℤ_comm, zero-+ℤ, length, lookup, insert, lookup-insert,
}
use mella_dashboard.Money.{cent}
use mella_dashboard.Money.Rounding.{round_currency-whole}
use mella_dashboard.Services.Reset.{ResetTime}
use mella_dashboard.Services.Store.{
  TradingAccount, Trade, Position, own_rules, Db, done, is_open, account_reset,
}
use mella_dashboard.Services.Metrics.{
  trades_of, sum_of, aggregate_trades, sum_open_position_floating,
}
use mella_dashboard.Services.Engine.{refresh, new_account_columns}
use mella_dashboard.Services.Engine.Transitions.{follows, add_notes}
use mella_dashboard.Services.Engine.Commands.{archive, close_by_admin, reset_row, reset_account}

archive-trades_of :
    (now id : ℕ) (trades : List Trade) → trades_of id (map (archive now id) trades) ≡ []
unfolding trades_of
archive-trades_of now id [] = refl
archive-trades_of now id (t ∷ ts) = ground (arith, archive-trades_of now id ts)

archive-length :
    (now id : ℕ) (trades : List Trade) → length (map (archive now id) trades) ≡ length trades
archive-length now id [] = refl
archive-length now id (t ∷ ts) = ground (arith, archive-length now id ts)

archive-other :
    (now id j : ℕ) (trades : List Trade)
    → id ≢ j
    → trades_of j (map (archive now id) trades) ≡ trades_of j trades
unfolding trades_of
archive-other now id j [] n = refl
archive-other now id j (t ∷ ts) n = ground (arith, archive-other now id j ts n)

closed-floating :
    (now id : ℕ) (positions : List (ℕ × Position))
    → sum_open_position_floating id (map (close_by_admin now id) positions) ≡ pos 0
unfolding sum_open_position_floating
closed-floating now id [] = refl
closed-floating now id (p ∷ ps) = ground (arith, closed-floating now id ps)

-- No position of the account is open.
abbrev pub HasNoneOpen : ℕ → List (ℕ × Position) → Type 0
HasNoneOpen id positions =
    any (λ (p : ℕ × Position). p.1.account_id == id && is_open p.1.status) positions ≡ false

closed-open :
    (now id : ℕ) (positions : List (ℕ × Position))
    → HasNoneOpen id (map (close_by_admin now id) positions)
closed-open now id [] = refl
closed-open now id (p ∷ ps) = ground (arith, closed-open now id ps)

legacy-empty :
    (id : ℕ) (r : ResetTime) (trades : List Trade)
    → trades_of id trades ≡ []
    → (aggregate_trades id r trades).unrealized_legacy ≡ pos 0
unfolding aggregate_trades
legacy-empty id r trades h =
    ap (λ ts. sum_of (λ (t : Trade). t.profit) (keep (λ t. is_open t.status) ts)) h

-- With nothing open, the equity is the balance.
refresh-flat :
    (now id : ℕ) (a : TradingAccount) (db : Db)
    → trades_of id db.trades ≡ []
    → sum_open_position_floating id db.positions ≡ pos 0
    → abs a.balance % cent ≡ 0
    → (refresh now id db a).equity ≡ a.balance
unfolding refresh
refresh-flat now id a db h f w =
    rw
      (
        legacy-empty id (own_rules a.snapshot).reset_time db.trades h,
        f,
        round_currency-whole a.balance w,
      )
      (rw
        (+ℤ_comm a.balance (pos 0), zero-+ℤ a.balance, +ℤ_comm a.balance (pos 0), zero-+ℤ a.balance)
        (round_currency-whole a.balance w))

reset_row-balance :
    (now : ℕ) (a : TradingAccount)
    → (reset_row now a).balance ≡ (own_rules a.snapshot).starting_balance
unfolding reset_row new_account_columns
reset_row-balance now a = refl

-- An account with no follower can be reset: none of its trades counts any more, though no trade is
-- deleted and those of other accounts stay; no position of it is open any more; and where its starting
-- balance is in whole cents, its next evaluation finds the equity at that balance again.
pub reset_account_lem :
    (now later id j : ℕ) (a : TradingAccount) (db : Db)
    → lookup id db.accounts ≡ some a
    → any (λ row. follows id row.1) db.accounts ≡ false
    → abs (own_rules a.snapshot).starting_balance % cent ≡ 0
    → id ≢ j
    → (after : Db) × (reset_account now id db ≡ done after)
      × (lookup id after.accounts ≡ some (reset_row now a))
      × (trades_of id after.trades ≡ [])
      × (length after.trades ≡ length db.trades)
      × (trades_of j after.trades ≡ trades_of j db.trades)
      × HasNoneOpen id after.positions
      × ((refresh later id after (reset_row now a)).equity
          ≡ (own_rules a.snapshot).starting_balance)
unfolding reset_account
reset_account_lem now later id j a db h n w d =
    let after = add_notes (account_reset id ∷ []) (record db {
      accounts = insert id (reset_row now a) db.accounts;
      trades = map (archive now id) db.trades;
      positions = map (close_by_admin now id) db.positions;
    }) in
    (
      after,
      rw (h, reset_account) (rw n refl),
      lookup-insert id id (reset_row now a) db.accounts ∙ rw ((==_iff id id).1 refl) refl,
      archive-trades_of now id db.trades,
      archive-length now id db.trades,
      archive-other now id j db.trades d,
      closed-open now id db.positions,
      refresh-flat later id (reset_row now a) after (archive-trades_of now id db.trades)
            (closed-floating now id db.positions) (rw (reset_row-balance now a) w)
          ∙ reset_row-balance now a,
    )
