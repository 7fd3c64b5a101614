-- ===== src/Services/Payouts/Balance.antt =====
-- The money of a payment: the profit that it consumes leaves the balance, the realized profit and the
-- ledger alike.
use mella_dashboard.Base.{
  ℕ, ◌+◌, ◌*◌, ◌/◌, ◌%◌, ◌≤◌, ◌≡◌, refl, sym, ap, ◌∙◌, ◌==◌, ==_iff, ℤ, pos, negsuc, pos_part,
  neg_part, ◌+ℤ◌, ◌-ℤ◌, ◌*ℤ◌, ◌≤ℤ◌, neg_ℤ, ltb_ℤ, false, some, List, any, arith, int_laws,
  if◌then◌else◌, lookup, insert, lookup-insert, Bool-cases, inl, inr, eq_of_parts,
}
use native.Mathlib.Nat.{le-div_iff_mul-le, mul-le-mul_left}
use mathlib.Core.Path.{subst}
use mathlib.Core.Option.{some-injective}
use mella_dashboard.Money.{
  Amount, Percent, cent, round_currency, round_currency_quot, round_half_up,
}
use mella_dashboard.Money.Rounding.{round_currency-whole}
use mella_dashboard.Services.Store.{
  TradingAccount, LedgerEntry, payout, adjustment, Db, done, payout_certificate,
}
use mella_dashboard.Services.Engine.Transitions.{issue_certificate}
use mella_dashboard.Services.Ledger.Money.{
  IsWhole, IsWhole-+ℤ, IsWhole--ℤ, ledger_total, IsBalanced, AllBalanced,
}
use mella_dashboard.Services.Payouts.{Payout, Treasury, profit_split_percent}
use mella_dashboard.Services.Payouts.Outcomes.{decide_read-IsDecided, done-injective, settle-pay}
use mella_dashboard.Services.Payouts.Deciding.{
  pay, consumed, firm_share, debited, has_key, add_entry, payout_entry, firm_share_entry,
  payment_entries, write_payment, decide_read,
}

-- A share of at most all of it.
abbrev pub IsSplit : Percent → Type 0
IsSplit p = (pos 1 ≤ℤ p) × (p ≤ℤ pos 10_000)

consumed_cents :
    (n s : ℕ) → n % cent ≡ 0 → 1 ≤ s → s ≤ 10_000 → n ≤ round_half_up (n * 10_000) (s * cent) * cent
unfolding round_half_up
consumed_cents n s whole low high =
    let k = n / cent in
    let less = mul-le-mul_left k high in
    let up : k ≤ round_half_up (n * 10_000) (s * cent) =
      (le-div_iff_mul-le {k = 2 * (s * cent)} (omega arith)).1 (omega (arith, less)) in
    let low : k * cent ≡ n = omega arith in omega (arith, up)

-- A payment consumes whole cents, and at least what the trader gets.
consumed_lem :
    (split : Percent) (amount : Amount)
    → IsSplit split
    → pos 0 ≤ℤ amount
    → IsWhole amount
    → IsWhole (consumed split amount) × (amount ≤ℤ consumed split amount)
unfolding consumed round_currency_quot ◌*ℤ◌
consumed_lem (pos s) (pos n) h k w = ground (arith, consumed_cents n s (omega (arith, w)))
consumed_lem (negsuc s) amount h k w = absurd (omega arith)
consumed_lem (pos s) (negsuc n) h k w = absurd (omega arith)

firm_share_lem :
    (split : Percent) (amount : Amount)
    → IsSplit split
    → pos 0 ≤ℤ amount
    → IsWhole amount
    → (firm_share split amount ≡ consumed split amount -ℤ amount)
      × (pos 0 ≤ℤ firm_share split amount)
unfolding firm_share
firm_share_lem split amount h k w =
    let (whole, more) = consumed_lem split amount h k w in
    let exact = round_currency-whole _ (IsWhole--ℤ (consumed split amount) amount whole w) in
    (exact, rw exact (omega int_laws))

-- An entry under a new key is added.
add_entry-total :
    (id : ℕ) (e : LedgerEntry) (es : List LedgerEntry)
    → any (has_key e.type e.ref_id) es ≡ false
    → ledger_total id (add_entry e es)
      ≡ (if e.account_id == id then e.amount +ℤ ledger_total id es else ledger_total id es)
unfolding add_entry ledger_total
add_entry-total id e es h = rw h refl

-- No entry of the payout yet.
abbrev pub IsUnrecorded : ℕ → List LedgerEntry → Type 0
IsUnrecorded id es = (any (has_key payout id) es ≡ false) × (any (has_key adjustment id) es ≡ false)

neg_parts : (a : ℤ) → pos_part (neg_ℤ a) + pos_part a ≡ neg_part (neg_ℤ a) + neg_part a
unfolding neg_ℤ
neg_parts a = ground arith

ruleset neg_laws = (int_laws, neg_parts)

add_neg : (a b t : Amount) → neg_ℤ (a -ℤ b) +ℤ (neg_ℤ b +ℤ t) ≡ t -ℤ a
add_neg a b t = eq_of_parts _ _ (omega neg_laws)

add_neg_zero : (a b t : Amount) → a -ℤ b ≤ℤ pos 0 → pos 0 ≤ℤ a -ℤ b → neg_ℤ b +ℤ t ≡ t -ℤ a
add_neg_zero a b t h k = eq_of_parts _ _ (omega neg_laws)

sent-unrecorded :
    (id : ℕ) (p : Payout) (es : List LedgerEntry)
    → IsUnrecorded id es
    → any (has_key adjustment id) (add_entry (payout_entry id p) es) ≡ false
unfolding add_entry payout_entry
sent-unrecorded id p es (a, b) = rw a b

-- The entries of a payment sum to what it consumes, on its own account.
payment_entries-total :
    (id account : ℕ) (split : Percent) (p : Payout) (es : List LedgerEntry)
    → IsSplit split
    → pos 0 ≤ℤ p.amount
    → IsWhole p.amount
    → IsUnrecorded id es
    → ledger_total account (payment_entries id split p es) ≡ (
        if p.account_id == account
        then ledger_total account es -ℤ consumed split p.amount
        else ledger_total account es)
unfolding payment_entries payout_entry firm_share_entry
payment_entries-total id account split p es s k w u =
    let (exact, nonneg) = firm_share_lem split p.amount s k w in
    let total = ledger_total account es in
    let sent = add_entry (payout_entry id p) es in
    let first = add_entry-total account (payout_entry id p) es u.0 in
    let second =
      add_entry-total account (firm_share_entry id split p) sent (sent-unrecorded id p es u) in
    elim (Bool-cases (ltb_ℤ (pos 0) (firm_share split p.amount))) [
      | inl e ↦ rw e (
          second ∙ elim (Bool-cases (p.account_id == account)) [
            | inl m ↦ rw m (
                ap (λ t. neg_ℤ (firm_share split p.amount) +ℤ t)
                  (let sum : ledger_total account sent ≡ neg_ℤ p.amount +ℤ total =
                      first ∙ rw m refl in
                    sum)
                ∙ rw exact (add_neg (consumed split p.amount) p.amount total))
            | inr m ↦ rw m (first ∙ rw m refl)
          ])
      | inr e ↦ rw e (
          first ∙ elim (Bool-cases (p.account_id == account)) [
            | inl m ↦ rw m (
                add_neg_zero (consumed split p.amount) p.amount total
                  (rw exact at (let z : firm_share split p.amount ≤ℤ pos 0 = ground arith in z))
                  (rw exact at nonneg))
            | inr m ↦ rw m refl
          ])
    ]

certificate-keeps :
    (id user : ℕ) (db : Db)
    → ((issue_certificate payout_certificate id user db).accounts ≡ db.accounts)
      × ((issue_certificate payout_certificate id user db).ledger ≡ db.ledger)
unfolding issue_certificate
certificate-keeps id user db = ground arith

paid-IsBalanced :
    (id : ℕ) (p : Payout) (a : TradingAccount) (es : List LedgerEntry)
    → IsSplit (profit_split_percent a)
    → pos 0 ≤ℤ p.amount
    → IsWhole p.amount
    → IsUnrecorded id es
    → IsBalanced p.account_id a es
    → let split = profit_split_percent a in
      IsBalanced p.account_id (debited (consumed split p.amount) a) (payment_entries id split p es)
unfolding debited
paid-IsBalanced id p a es s k w u h =
    let split = profit_split_percent a in
    let spent = consumed split p.amount in
    let spent_whole = (consumed_lem split p.amount s k w).0 in
    let total : ledger_total p.account_id (payment_entries id split p es)
        ≡ ledger_total p.account_id es -ℤ spent =
      payment_entries-total id p.account_id split p es s k w u
      ∙ rw ((==_iff p.account_id p.account_id).1 refl) refl in
    let pnl_whole = IsWhole--ℤ a.realized_pnl spent h.whole_pnl spent_whole in
    let sum : a.balance -ℤ spent ≡ a.starting_balance +ℤ (a.realized_pnl -ℤ spent) =
      rw h.balance_pnl (eq_of_parts _ _ (omega int_laws)) in
    record {
      whole_start = h.whole_start;
      whole_pnl = pnl_whole;
      pnl_ledger = ap (λ t. t -ℤ spent) h.pnl_ledger ∙ sym total;
      balance_pnl =
          ap round_currency sum
          ∙ round_currency-whole _
              (IsWhole-+ℤ a.starting_balance (a.realized_pnl -ℤ spent) h.whole_start pnl_whole);
    }

unpaid-IsBalanced :
    (id other : ℕ) (split : Percent) (p : Payout) (a : TradingAccount) (es : List LedgerEntry)
    → IsSplit split
    → pos 0 ≤ℤ p.amount
    → IsWhole p.amount
    → IsUnrecorded id es
    → (p.account_id == other) ≡ false
    → IsBalanced other a es
    → IsBalanced other a (payment_entries id split p es)
unpaid-IsBalanced id other split p a es s k w u n h = record {
  whole_start = h.whole_start;
  whole_pnl = h.whole_pnl;
  pnl_ledger = h.pnl_ledger ∙ sym (payment_entries-total id other split p es s k w u ∙ rw n refl);
  balance_pnl = h.balance_pnl;
}

write_payment-AllBalanced :
    (id : ℕ) (p : Payout) (a : TradingAccount) (db : Db)
    → IsSplit (profit_split_percent a)
    → pos 0 ≤ℤ p.amount
    → IsWhole p.amount
    → IsUnrecorded id db.ledger
    → lookup p.account_id db.accounts ≡ some a
    → AllBalanced db
    → AllBalanced (write_payment id p a db)
unfolding write_payment
write_payment-AllBalanced id p a db s k w u h all j b e =
    let split = profit_split_percent a in
    let after = debited (consumed split p.amount) a in
    let written : Db = record db {
      accounts = insert p.account_id after db.accounts;
      ledger = payment_entries id split p db.ledger;
    } in
    let (accounts, entries) = certificate-keeps id p.user_id written in
    let row =
      sym (lookup-insert p.account_id j after db.accounts) ∙ sym (ap (lookup j) accounts) ∙ e in
    rw entries (elim (Bool-cases (p.account_id == j)) [
      | inl m ↦
          let same_row : some after ≡ some b = sym (rw m refl) ∙ row in
          let own = paid-IsBalanced id p a db.ledger s k w u (all p.account_id a h) in
          subst (λ v. IsBalanced j v written.ledger) (some-injective _ _ same_row)
            (subst (λ i. IsBalanced i after written.ledger) ((==_iff p.account_id j).0 m) own)
      | inr m ↦
          unpaid-IsBalanced id j split p b db.ledger s k w u m (all j b (sym (rw m refl) ∙ row))
    ])

-- Marking a payout paid keeps every account balanced: the balance, the realized profit and the ledger
-- fall by the same amount to the cent, for an amount of whole cents, a profit split above 0 and up to
-- 100%, and a payout with no ledger entries yet.
pub pay-AllBalanced :
    (now id actor : ℕ) (p : Payout) (a : TradingAccount) (t after : Treasury)
    → IsSplit (profit_split_percent a)
    → pos 0 ≤ℤ p.amount
    → IsWhole p.amount
    → IsUnrecorded id t.db.ledger
    → lookup p.account_id t.db.accounts ≡ some a
    → AllBalanced t.db
    → decide_read now id pay actor p t ≡ done after
    → AllBalanced after.db
pay-AllBalanced now id actor p a t after s k w u h all e =
    let r = decide_read-IsDecided now id pay actor p t after e in
    let db : write_payment id p a t.db ≡ r.db =
      done-injective _ _ (sym (settle-pay id p a t.db h) ∙ r.moved) in
    rw (r.written, sym db) (write_payment-AllBalanced id p a t.db s k w u h all)
