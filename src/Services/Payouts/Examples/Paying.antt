-- ===== src/Services/Payouts/Examples/Paying.antt =====
-- A payout from its request to the payment, and the money of it.
use mella_dashboard.Base.{
  ℕ, ◌+◌, ◌≡◌, ◌≢◌, refl, pos, ◌+ℤ◌, ◌-ℤ◌, true, none, some, List, [], ◌∷◌, arith, lookup, insert,
  inl, inr, ◌==◌, ==_iff, Bool-cases, sym, ◌∙◌,
}
use mathlib.Core.Path.{subst}
use mathlib.Core.Option.{some-injective}
use mella_dashboard.Services.Store.{TradingAccount, last_phase, done}
use mella_dashboard.Money.{round_percent_of, round_currency_quot}
use mella_dashboard.Challenge.Types.{trailing}
use mella_dashboard.Challenge.Rules.{determine_challenge_transition}
use mella_dashboard.Services.Engine.{decision_input}
use mella_dashboard.Services.Payouts.Drawdown.{debited-dd_breach}
use mella_dashboard.Services.Examples.{now}
use mella_dashboard.Services.Payouts.Deciding.{
  approve, pay, debited, decided, decision_refusal, settle, write_payment, decide_read,
}
use mella_dashboard.Services.Payouts.Desk.{Desk, requests, reads_row, decides, Run, stay, step}
use mella_dashboard.Services.Payouts.Control.{run-separated}
use mella_dashboard.Services.Payouts.Finality.{run-final, is_final}
use mella_dashboard.Services.Payouts.Outcomes.{after_decision, decide_read-done, settle-pay}
use mella_dashboard.Services.Ledger.Money.{AllBalanced, IsBalanced, ledger_total}
use mella_dashboard.Services.Payouts.Balance.{pay-AllBalanced}
use mella_dashboard.Services.Payouts.{
  Payout, Treasury, approved, paid, write_request, requested_payout,
}
use mella_dashboard.Services.Payouts.Examples.{
  trader_account, funded_rules, treasury, input, row, stored, requested, requests_it, request,
  waiting,
}

abbrev half : Treasury
half = after_decision (now + 10) 1 approve 8 request request requested.db requested

abbrev half_way : Payout
half_way = decided approve 8 (now + 10) request

abbrev whole : Treasury
whole =
    after_decision (now + 20) 1 pay 9 half_way half_way (write_payment 1 half_way row half.db) half

abbrev sent : Payout
sent = decided pay 9 (now + 20) half_way

approves : decide_read (now + 10) 1 approve 8 request requested ≡ done half
unfolding decision_refusal requested_payout settle
approves =
    decide_read-done (now + 10) 1 approve 8 request request requested.db requested refl waiting refl
      refl

waiting_half : lookup 1 half.payouts ≡ some half_way
unfolding lookup write_request insert
waiting_half = refl

pays : decide_read (now + 20) 1 pay 9 half_way half ≡ done whole
unfolding decision_refusal requested_payout decided write_request
pays =
    decide_read-done (now + 20) 1 pay 9 half_way half_way (write_payment 1 half_way row half.db)
      half refl waiting_half refl (settle-pay 1 half_way row half.db stored)

sent_whole : lookup 1 whole.payouts ≡ some sent
unfolding lookup write_request insert
sent_whole = refl

abbrev start : Desk
start = record { treasury = treasury; reads = [] }

abbrev desk : Treasury → List (ℕ × (ℕ × Payout)) → Desk
desk t reads = record { treasury = t; reads = reads }

abbrev reads : List (ℕ × (ℕ × Payout))
reads = insert 2 (1, half_way) (insert 1 (1, request) [])

run : Run start (desk whole reads)
unfolding lookup insert
run =
    step
      (step
        (step
          (step (step stay (requests now input requested requests_it))
            (reads_row 1 1 request waiting))
          (decides 1 (now + 10) 1 approve 8 request half refl approves))
        (reads_row 2 1 half_way waiting_half))
      (decides 2 (now + 20) 1 pay 9 half_way whole refl pays)

is_sent : sent.status ≡ paid
unfolding decided
is_sent = refl

final_sent : is_final sent.status ≡ true
unfolding decided
final_sent = refl

run-separated_example :
    (a b : ℕ) × (sent.approved_by ≡ some a)
    × (sent.paid_by ≡ some b)
    × (a ≢ b)
    × (sent.created_by ≢ some a)
    × (sent.created_by ≢ some b)
run-separated_example =
    run-separated start (desk whole reads) 1 sent (refl, refl) run sent_whole is_sent

-- Another read of the paid row changes nothing.
run-final_example : lookup 1 whole.payouts ≡ some sent
run-final_example =
    run-final start (desk whole reads) (desk whole (insert 3 (1, sent) reads)) 1 sent (refl, refl)
      run sent_whole final_sent (step stay (reads_row 3 1 sent sent_whole))

abbrev approved_payout : Payout
approved_payout = record {
  account_id = 3;
  user_id = 5;
  amount = pos 1_000_000_000;
  status = approved;
  created_by = some 5;
  approved_by = some 8;
  approved_at = some now;
  paid_by = none;
  paid_at = none;
  rejected_by = none;
  rejected_at = none;
  requested_at = now;
}

abbrev unpaid : Treasury
unpaid = record treasury { payouts = (1, approved_payout) ∷ [] }

abbrev payment : Treasury
payment =
    after_decision now 1 pay 9 approved_payout approved_payout
      (write_payment 1 approved_payout trader_account unpaid.db) unpaid

pays_it : decide_read now 1 pay 9 approved_payout unpaid ≡ done payment
unfolding decision_refusal settle lookup
pays_it =
    decide_read-done now 1 pay 9 approved_payout approved_payout
      (write_payment 1 approved_payout trader_account unpaid.db) unpaid refl refl refl refl

unpaid-AllBalanced : AllBalanced unpaid.db
unfolding lookup ◌+ℤ◌ ledger_total
unpaid-AllBalanced id a e = elim (Bool-cases (3 == id)) [
  | inl m ↦
      let is_it : lookup id unpaid.db.accounts ≡ some trader_account = rw m refl in
      let account_3 : 3 ≡ id = (==_iff 3 id).0 m in
      subst (λ v. IsBalanced id v unpaid.db.ledger) (some-injective _ _ (sym is_it ∙ e))
        (subst (λ k. IsBalanced k trader_account unpaid.db.ledger) account_3
          (record { whole_start = refl; whole_pnl = refl; pnl_ledger = refl; balance_pnl = refl }))
  | inr m ↦ absurd (cc (rw m at e))
]

pay-AllBalanced_example : AllBalanced payment.db
unfolding lookup
pay-AllBalanced_example =
    pay-AllBalanced now 1 9 approved_payout trader_account unpaid payment (omega arith)
      (omega arith) refl (refl, refl) refl unpaid-AllBalanced pays_it

-- The equity was 11 000 and is 10 200, under a trailing limit.
abbrev trailing_account : TradingAccount
trailing_account = record trader_account {
  snapshot =
      last_phase (record funded_rules {
        rules = record funded_rules.rules { drawdown_mode = some trailing };
      });
  equity = pos 10_200_000_000;
  high_water_mark = pos 11_000_000_000;
}

debited-dd_breach_example :
    let before =
      determine_challenge_transition (decision_input now 3 treasury.db trailing_account) in
    let after =
      determine_challenge_transition
        (decision_input now 3 treasury.db (debited (pos 500_000_000) trailing_account)) in
    after.dd_breach ≡ before.dd_breach
unfolding round_percent_of round_currency_quot ◌-ℤ◌
debited-dd_breach_example =
    debited-dd_breach now 3 treasury.db (pos 500_000_000) trailing_account refl refl refl refl refl
      (omega arith) (omega arith) (omega arith)
