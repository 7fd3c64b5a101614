-- ===== src/Services/Examples/Engine.antt =====
-- The theorems on evaluation, breaches, phases and resets at the small database.
use mella_dashboard.Base.{
  ◌+◌, ◌≡◌, refl, pos, ◌+ℤ◌, ◌-ℤ◌, some, [], arith, lookup, length, ◌≢◌, ◌⊎◌, true,
}
use mella_dashboard.Money.{round_currency, round_percent_of}
use mella_dashboard.Challenge.Types.{passed}
use mella_dashboard.Challenge.Rules.{
  target_amount, determine_challenge_transition, max_drawdown_floor, daily_loss_floor,
}
use mella_dashboard.Services.Reset.{current_day_start, needs_daily_reset}
use mella_dashboard.Services.Store.{TradingAccount, Db, done}
use mella_dashboard.Services.Metrics.{trades_of, sum_open_position_floating}
use mella_dashboard.Services.Engine.{
  refresh, decision_input, backfill_aggregates, reconstruct_boundary_equity,
}
use mella_dashboard.Challenge.Consistency.{consistency_check}
use mella_dashboard.Services.Metrics.{aggregate_trades, daily_net_profits}
use mella_dashboard.Services.Engine.Transitions.{update_account, numeric_fields}
use mella_dashboard.Services.Engine.Commands.{
  Evaluation, read_evaluation, commit_evaluation, evaluate_account, reset_account, reset_row,
}
use mella_dashboard.Services.Engine.Claims.{has_follower, commit_evaluation_once}
use mella_dashboard.Services.Engine.Outcomes.{IsEvaluated, evaluate_account_lem}
use mella_dashboard.Services.Engine.Resets.{HasNoneOpen, reset_account_lem}
use mella_dashboard.Services.Examples.{account, db, now, found}

evaluate_account_example :
    let fresh = refresh now 3 db (backfill_aggregates 3 db.trades account) in
    let decision = determine_challenge_transition (decision_input now 3 db fresh) in
    (after : Db) × (evaluate_account now 3 db ≡ done after)
    × (((decision.next_status ≡ passed)
          × (has_follower 3 db.accounts ≡ true)
          × (lookup 3 after.accounts ≡ some (backfill_aggregates 3 db.trades account)))
        ⊎ ((row : TradingAccount) × (lookup 3 after.accounts ≡ some row)
            × IsEvaluated decision fresh row))
evaluate_account_example = evaluate_account_lem now 3 account db found (omega arith)

abbrev read : Evaluation
read = read_evaluation now 3 db account

passes : read.decision.next_status ≡ passed
unfolding read_evaluation refresh decision_input backfill_aggregates determine_challenge_transition
    aggregate_trades daily_net_profits consistency_check sum_open_position_floating
    current_day_start needs_daily_reset max_drawdown_floor daily_loss_floor round_percent_of
    round_currency target_amount reconstruct_boundary_equity ◌-ℤ◌ ◌+ℤ◌
passes = refl

kept : account.status ≡ read.previous_status
unfolding read_evaluation
kept = refl

moves : read.decision.next_status ≢ read.previous_status
moves e = cc (passes, kept, e)

-- A pass that two evaluations decide at once.
commit_evaluation_once_example :
    let after = commit_evaluation now 3 read db in
    ((after ≡ db) × (read.decision.next_status ≡ passed) × (has_follower 3 db.accounts ≡ true))
    ⊎ (commit_evaluation (now + 5) 3 read after
        ≡ update_account 3 (numeric_fields read.fresh) after)
commit_evaluation_once_example =
    commit_evaluation_once now (now + 5) 3 read read account db found (omega arith) kept refl moves

reset_account_example :
    (after : Db) × (reset_account now 3 db ≡ done after)
    × (lookup 3 after.accounts ≡ some (reset_row now account))
    × (trades_of 3 after.trades ≡ [])
    × (length after.trades ≡ length db.trades)
    × (trades_of 8 after.trades ≡ trades_of 8 db.trades)
    × HasNoneOpen 3 after.positions
    × ((refresh (now + 5) 3 after (reset_row now account)).equity ≡ pos 10_000_000_000)
reset_account_example =
    reset_account_lem now (now + 5) 3 8 account db found refl (omega arith) (omega arith)
