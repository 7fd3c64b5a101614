-- ===== src/Services/Payouts/Examples.antt =====
-- A funded account, from its request of a payout to the payment.
mod Paying
use mella_dashboard.Base.{
  ℕ, ◌+◌, ◌≡◌, ◌≢◌, refl, pos, ◌+ℤ◌, ◌-ℤ◌, ◌*ℤ◌, ◌≤ℤ◌, true, false, none, some, List, [], ◌∷◌,
  arith, lookup, insert, inl, inr, ◌==◌, ==_iff, Bool-cases, sym, ◌∙◌,
}
use mathlib.Core.Path.{subst}
use mathlib.Core.Option.{some-injective}
use mella_dashboard.Money.{round_currency, round_percent_of}
use mella_dashboard.Challenge.Types.{funded, funded_phase, failed, max_drawdown}
use mella_dashboard.Challenge.Rules.{
  target_amount, determine_challenge_transition, max_drawdown_floor, daily_loss_floor,
}
use mella_dashboard.Challenge.Consistency.{consistency_check}
use mella_dashboard.Services.Reset.{current_day_start, needs_daily_reset}
use mella_dashboard.Services.Store.{
  PhaseRules, last_phase, TradingAccount, LedgerEntry, trade_pnl, Db, done,
}
use mella_dashboard.Services.Metrics.{
  aggregate_trades, daily_net_profits, sum_open_position_floating,
}
use mella_dashboard.Services.Engine.{
  refresh, decision_input, backfill_aggregates, reconstruct_boundary_equity,
}
use mella_dashboard.Services.Engine.Transitions.{update_account, numeric_fields}
use mella_dashboard.Services.Engine.Commands.{read_evaluation, commit_evaluation, evaluate_account}
use mella_dashboard.Services.Examples.{rules, account, now}
use mella_dashboard.Services.Payouts.Deciding.{
  approve, pay, is_actor, decided, decision_refusal, settle, write_payment, decide_payout,
  decide_read, debited,
}
use mella_dashboard.Services.Payouts.Desk.{Desk, requests, reads_row, decides, Run, stay, step}
use mella_dashboard.Services.Payouts.Control.{run-separated}
use mella_dashboard.Services.Payouts.Finality.{run-final, is_final}
use mella_dashboard.Services.Payouts.Outcomes.{after_decision, decide_read-done, settle-pay}
use mella_dashboard.Services.Ledger.Money.{AllBalanced, IsBalanced, ledger_total}
use mella_dashboard.Services.Payouts.Progress.{pending-paid}
use mella_dashboard.Services.Payouts.Balance.{pay-AllBalanced}
use mella_dashboard.Services.Payouts.Requesting.{
  IsRequestable, create_payout_iff, create_payout-committed, AllWhole,
}
use mella_dashboard.Services.Payouts.{
  Payout, Treasury, PayoutInput, pending, approved, paid, create_payout, write_request,
  requested_payout, committed, compute_payout_availability, compute_consistency, trader_share,
  funded_days,
}

abbrev pub funded_rules : PhaseRules
funded_rules = record rules { phase = funded_phase }

-- 2 000 of profit on 10 000, of which the trader gets 80%.
abbrev pub trader_account : TradingAccount
trader_account = record account {
  snapshot = last_phase funded_rules;
  phase = funded_phase;
  status = funded;
  balance = pos 12_000_000_000;
  equity = pos 12_000_000_000;
  high_water_mark = pos 12_000_000_000;
  daily_anchor_balance = pos 12_000_000_000;
  realized_pnl = pos 2_000_000_000;
  funded_at = some 1_898_000_000_000;
}

abbrev earned : LedgerEntry
earned = record { account_id = 3; type = trade_pnl; amount = pos 2_000_000_000; ref_id = 7 }

abbrev pub treasury : Treasury
treasury = record {
  db = record {
    templates = [];
    accounts = (3, trader_account) ∷ [];
    positions = [];
    trades = [];
    orders = [];
    ledger = earned ∷ [];
    snapshots = [];
    notes = [];
    next_id = 9;
  };
  payouts = [];
  kyc = (record { user_id = 5; is_approved = true }) ∷ [];
  next_payout = 1;
}

-- 1 000 for the trader.
abbrev pub input : PayoutInput
input = record {
  trading_account_id = 3;
  amount = pos 1_000_000_000;
  requested_by = 5;
  by_admin = false;
}

abbrev evaluated : Db
evaluated =
    commit_evaluation now 3 (read_evaluation now 3 treasury.db trader_account)
      (update_account 3 (backfill_aggregates 3 treasury.db.trades) treasury.db)

abbrev pub row : TradingAccount
row = numeric_fields (read_evaluation now 3 treasury.db trader_account).fresh trader_account

abbrev fresh : Treasury
fresh = record treasury { db = evaluated }

evaluates : evaluate_account now 3 treasury.db ≡ done evaluated
unfolding evaluate_account lookup
evaluates = refl

pub stored : lookup 3 evaluated.accounts ≡ some row
unfolding lookup commit_evaluation read_evaluation refresh decision_input backfill_aggregates
    determine_challenge_transition aggregate_trades daily_net_profits consistency_check
    sum_open_position_floating current_day_start needs_daily_reset max_drawdown_floor
    daily_loss_floor round_percent_of round_currency target_amount reconstruct_boundary_equity ◌-ℤ◌
    ◌+ℤ◌ update_account numeric_fields insert
stored = refl

requestable : IsRequestable input row (compute_payout_availability now 3 row fresh)
unfolding compute_payout_availability trader_share committed funded_days compute_consistency
    consistency_check round_percent_of round_currency ◌-ℤ◌ ◌*ℤ◌ numeric_fields read_evaluation
    refresh decision_input backfill_aggregates determine_challenge_transition aggregate_trades
    daily_net_profits sum_open_position_floating current_day_start needs_daily_reset
    max_drawdown_floor daily_loss_floor target_amount reconstruct_boundary_equity ◌+ℤ◌
requestable = record {
  large_enough = omega arith;
  permitted = inr refl;
  is_funded = refl;
  verified = refl;
  long_enough = omega arith;
  consistent = refl;
  covered = omega arith;
}

abbrev pub requested : Treasury
requested = write_request now input row fresh

pub requests_it : create_payout now input treasury ≡ done requested
requests_it = (create_payout_iff now input row evaluated treasury evaluates stored).1 requestable

create_payout-committed_example :
    AllWhole requested.payouts
    × ((a : TradingAccount) × (lookup 3 requested.db.accounts ≡ some a)
        × (committed 3 requested.payouts ≤ℤ trader_share a))
create_payout-committed_example =
    create_payout-committed now input treasury requested tt requests_it

abbrev pub request : Payout
request = requested_payout now input row

pub waiting : lookup 1 requested.payouts ≡ some request
unfolding lookup write_request
waiting = refl

request-pending : request.status ≡ pending
unfolding requested_payout
request-pending = refl

has_account : lookup request.account_id requested.db.accounts ≡ some row
unfolding requested_payout write_request
has_account = stored

not_by : (n : ℕ) → (5 == n) ≡ false → is_actor request.created_by n ≡ false
unfolding requested_payout
not_by n h = h

-- Two administrators, 8 and 9.
pending-paid_example :
    (half whole : Treasury) × (q : Payout) × (decide_payout (now + 10) 1 approve 8 requested
      ≡ done half)
    × (decide_payout (now + 20) 1 pay 9 half ≡ done whole)
    × (lookup 1 whole.payouts ≡ some q)
    × (q.status ≡ paid)
    × (q.paid_by ≡ some 9)
pending-paid_example =
    pending-paid (now + 10) (now + 20) 1 8 9 request row requested waiting request-pending
      has_account (not_by 8 refl) (not_by 9 refl) (omega arith)
