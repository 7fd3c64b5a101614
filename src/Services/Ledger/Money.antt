-- ===== src/Services/Ledger/Money.antt =====
-- The money of a close: the account's columns follow the ledger to the cent.
use mella_dashboard.Base.{
  zero-+ℤ, +ℤ_assoc, +ℤ_comm, ℕ, ◌%◌, ◌≡◌, refl, sym, ap, ◌∙◌, ◌==◌, ==_iff, pos, abs, ◌+ℤ◌, ◌-ℤ◌,
  neg_ℤ, false, some, List, [], ◌∷◌, ◌++◌, arith, if◌then◌else◌, lookup, lookup-insert, Bool-cases,
  inl, inr,
}
use mathlib.Core.Path.{subst}
use mathlib.Core.Option.{some-injective}
use mella_dashboard.Money.{Amount, cent, round_currency}
use mella_dashboard.Money.Rounding.{round_currency-whole, round_currency_nearest}
use mella_dashboard.Services.Store.{
  TradingAccount, Position, LedgerEntry, LedgerEntryType, commission, swap, Db,
}
use mella_dashboard.Services.Ledger.Closing.{
  ClosePositionInput, CloseAmounts, close_amounts, close_entries, settled, write_close,
  entry_unless_zero,
}

abbrev pub IsWhole : Amount → Type 0
IsWhole v = abs v % cent ≡ 0

pub IsWhole-+ℤ : (a b : Amount) → IsWhole a → IsWhole b → IsWhole (a +ℤ b)
unfolding ◌+ℤ◌
IsWhole-+ℤ a b h k = ground arith

pub IsWhole--ℤ : (a b : Amount) → IsWhole a → IsWhole b → IsWhole (a -ℤ b)
unfolding ◌-ℤ◌
IsWhole--ℤ a b h k = ground arith

-- The sum of an account's ledger.
unfoldable pub ledger_total : ℕ → List LedgerEntry → Amount
ledger_total id [] = pos 0
ledger_total id (e ∷ es) =
    let rest = ledger_total id es in if e.account_id == id then e.amount +ℤ rest else rest

pub total-append :
    (id : ℕ) (es fs : List LedgerEntry)
    → ledger_total id (es ++ fs) ≡ ledger_total id es +ℤ ledger_total id fs
unfolding ledger_total
total-append id [] fs = sym (zero-+ℤ (ledger_total id fs))
total-append id (e ∷ es) fs = elim (Bool-cases (e.account_id == id)) [
  | inl h ↦ rw h (
      ap (λ t. e.amount +ℤ t) (total-append id es fs)
      ∙ +ℤ_assoc e.amount (ledger_total id es) (ledger_total id fs))
  | inr h ↦ rw h (total-append id es fs)
]

entry-total :
    (id : ℕ) (e : LedgerEntry)
    → ledger_total id (entry_unless_zero e) ≡ (if e.account_id == id then e.amount else pos 0)
unfolding ledger_total ◌+ℤ◌
entry-total id e = ground arith

sub-neg : (g c s : Amount) → g +ℤ (neg_ℤ c +ℤ neg_ℤ s) ≡ g -ℤ c -ℤ s
unfolding ◌+ℤ◌ ◌-ℤ◌ neg_ℤ
sub-neg g c s = ground arith

fees : ℕ → ℕ → CloseAmounts → LedgerEntryType → Amount → LedgerEntry
fees account trade c t v = record {
  account_id = account;
  type = t;
  amount = neg_ℤ v;
  ref_id = trade;
}

fees-total :
    (account trade id : ℕ) (c : CloseAmounts)
    → ledger_total id (
        entry_unless_zero (fees account trade c commission c.commission)
        ++ entry_unless_zero (fees account trade c swap c.swap))
      ≡ (if account == id then neg_ℤ c.commission +ℤ neg_ℤ c.swap else pos 0)
unfolding fees
fees-total account trade id c =
    let cost = fees account trade c commission c.commission in
    let roll = fees account trade c swap c.swap in
    total-append id (entry_unless_zero cost) (entry_unless_zero roll)
    ∙ rw (entry-total id cost, entry-total id roll)
        (elim (Bool-cases (account == id)) [ inl h ↦ rw h refl | inr h ↦ rw h (zero-+ℤ (pos 0)) ])

-- The entries of a close sum to its net profit, on its own account.
close_entries-total :
    (account trade id : ℕ) (c : CloseAmounts)
    → ledger_total id (close_entries account trade c)
      ≡ (if account == id then c.gross -ℤ c.commission -ℤ c.swap else pos 0)
unfolding close_entries ledger_total fees
close_entries-total account trade id c = elim (Bool-cases (account == id)) [
  | inl h ↦ rw h (
      ap (λ t. c.gross +ℤ t) (fees-total account trade id c ∙ rw h refl)
      ∙ sub-neg c.gross c.commission c.swap)
  | inr h ↦ rw h (fees-total account trade id c ∙ rw h refl)
]

-- Every amount of a close is whole, and the net profit is exactly what is left of the gross.
pub close_amounts-exact :
    (i : ClosePositionInput) (p : Position)
    → let c = close_amounts i p in
      IsWhole c.gross
      × IsWhole c.commission
      × IsWhole c.swap
      × (c.net_profit ≡ c.gross -ℤ c.commission -ℤ c.swap)
unfolding close_amounts
close_amounts-exact i p =
    let g = (round_currency_nearest i.gross_profit).0 in
    let c = (round_currency_nearest i.commission).0 in
    let s = (round_currency_nearest i.swap).0 in
    (g, c, s, round_currency-whole _ (IsWhole--ℤ _ _ (IsWhole--ℤ _ _ g c) s))

-- An account whose columns are whole cents, whose profit is the sum of its ledger, and whose balance
-- is its starting balance with that profit.
pub record IsBalanced (id : ℕ) (a : TradingAccount) (es : List LedgerEntry) : Type 0 where
  pub whole_start : IsWhole a.starting_balance
  pub whole_pnl : IsWhole a.realized_pnl
  pub pnl_ledger : a.realized_pnl ≡ ledger_total id es
  pub balance_pnl : a.balance ≡ a.starting_balance +ℤ a.realized_pnl

-- Every account is balanced.
abbrev pub AllBalanced : Db → Type 0
AllBalanced db =
    (id : ℕ) (a : TradingAccount) → lookup id db.accounts ≡ some a → IsBalanced id a db.ledger

settled-IsBalanced :
    (i : ClosePositionInput) (p : Position) (a : TradingAccount) (es : List LedgerEntry) (trade : ℕ)
    → IsBalanced p.account_id a es
    → let c = close_amounts i p in
      IsBalanced p.account_id (settled i c a) (close_entries p.account_id trade c ++ es)
unfolding settled
settled-IsBalanced i p a es trade h =
    let c = close_amounts i p in
    let (g, co, sw, net) = close_amounts-exact i p in
    let whole : IsWhole c.net_profit = rw net (IsWhole--ℤ _ _ (IsWhole--ℤ _ _ g co) sw) in
    let start = IsWhole-+ℤ _ _ h.whole_start h.whole_pnl in
    let sum = IsWhole-+ℤ _ _ h.whole_pnl whole in
    let total : ledger_total p.account_id (close_entries p.account_id trade c ++ es)
        ≡ c.net_profit +ℤ ledger_total p.account_id es =
      total-append p.account_id (close_entries p.account_id trade c) es
      ∙ ap (λ t. t +ℤ ledger_total p.account_id es)
          (close_entries-total p.account_id trade p.account_id c
            ∙ rw ((==_iff p.account_id p.account_id).1 refl) (sym net)) in
    record {
      whole_start = h.whole_start;
      whole_pnl = rw (round_currency-whole _ sum) sum;
      pnl_ledger =
          round_currency-whole _ sum
          ∙ +ℤ_comm a.realized_pnl c.net_profit
          ∙ ap (λ t. c.net_profit +ℤ t) h.pnl_ledger
          ∙ sym total;
      balance_pnl =
          ap (λ b. round_currency (b +ℤ c.net_profit)) h.balance_pnl
          ∙ round_currency-whole _ (IsWhole-+ℤ _ _ start whole)
          ∙ sym (+ℤ_assoc a.starting_balance a.realized_pnl c.net_profit)
          ∙ ap (λ t. a.starting_balance +ℤ t) (sym (round_currency-whole _ sum));
    }

other-IsBalanced :
    (i : ClosePositionInput) (p : Position) (id trade : ℕ) (a : TradingAccount)
    (es : List LedgerEntry)
    → (p.account_id == id) ≡ false
    → IsBalanced id a es
    → IsBalanced id a (close_entries p.account_id trade (close_amounts i p) ++ es)
other-IsBalanced i p id trade a es n h = record {
  whole_start = h.whole_start;
  whole_pnl = h.whole_pnl;
  pnl_ledger =
      h.pnl_ledger
      ∙ sym (
          total-append id (close_entries p.account_id trade (close_amounts i p)) es
          ∙ rw (close_entries-total p.account_id trade id (close_amounts i p)) (rw n (zero-+ℤ _)));
  balance_pnl = h.balance_pnl;
}

-- A close keeps every account balanced: each profit is the sum of the ledger to the cent, and each
-- balance the starting balance with that profit.
pub write_close-AllBalanced :
    (i : ClosePositionInput) (p : Position) (a : TradingAccount) (db : Db)
    → lookup p.account_id db.accounts ≡ some a
    → AllBalanced db
    → AllBalanced (write_close i p a db)
unfolding write_close
write_close-AllBalanced i p a db h all id b e =
    let after = settled i (close_amounts i p) a in
    let row = sym (lookup-insert p.account_id id after db.accounts) ∙ e in
    elim (Bool-cases (p.account_id == id)) [
      | inl m ↦
          let same_row : some after ≡ some b = sym (rw m refl) ∙ row in
          let own = settled-IsBalanced i p a db.ledger db.next_id (all p.account_id a h) in
          subst (λ v. IsBalanced id v (write_close i p a db).ledger) (some-injective _ _ same_row)
            (subst (λ k. IsBalanced k after (write_close i p a db).ledger)
              ((==_iff p.account_id id).0 m) own)
      | inr m ↦
          let same_row : lookup id db.accounts ≡ some b = sym (rw m refl) ∙ row in
          other-IsBalanced i p id db.next_id b db.ledger m (all id b same_row)
    ]
