-- ===== src/Services/Purchases/Examples.antt =====
-- A purchase of 900, from the frozen snapshot to the activation, the refund and the cancellation.
use mella_dashboard.Base.{
  ℕ, ◌+◌, ◌≤◌, ◌≡◌, ◌⊎◌, refl, pos, true, false, none, some, List, [], ◌∷◌, arith, lookup, insert,
  length, inl,
}
use mella_dashboard.Services.Store.{PhaseRules, TemplateSnapshot, last_phase, phase_then, Template}
use mella_dashboard.Services.Examples.{rules, account, now}
use mella_dashboard.Services.Coupons.{pending, paid, record_coupon_redemption}
use mella_dashboard.Services.Referrals.{unset}
use mella_dashboard.Services.Purchases.{
  PurchaseRow, Sales, sold, chapa, purchased_account, claimed_row, write_activation, fulfil,
  activate_read, activate_purchase,
}
use mella_dashboard.Services.Purchases.Snapshot.{build_purchase_snapshot}
use mella_dashboard.Services.Purchases.Chain.{
  phases, ids, IsLinked, all_distinct, IsComplete, IsKeyed, build_purchase_snapshot_lem,
}
use mella_dashboard.Services.Purchases.Activating.{activate_once}
use mella_dashboard.Services.Purchases.Payment.{
  success, Verification, find_by_ref, fail_pending, verify_and_complete,
}
use mella_dashboard.Services.Purchases.Verified.{IsPayment, IsUntouched, verify_and_complete_lem}
use mella_dashboard.Services.Purchases.Initiation.{InitiateInput}
use mella_dashboard.Services.Purchases.Reversal.{find_follower, refund_purchase, cancel_purchase}
use mella_dashboard.Services.Purchases.Reversed.{IsReversed, reversal_lem}
use mella_dashboard.Services.Purchases.Keeping.{attempts, entries, fail-Keeps}
use mella_dashboard.Services.Purchases.Adding.{HasSingleAttempts}
use mella_dashboard.Services.Purchases.Attempts.{
  Event, initiates, changes, run, initiate_purchase-single,
}

abbrev first_phase : PhaseRules
first_phase = record rules { next_phase_id = some 2 }

-- The second phase names the first again.
abbrev second_phase : PhaseRules
second_phase = record rules { template_id = 2; next_phase_id = some 1 }

abbrev templates : List (ℕ × Template)
templates =
    (1, record { is_active = true; rules = first_phase })
    ∷ (2, record { is_active = true; rules = second_phase })
    ∷ []

templates-IsKeyed : IsKeyed templates
unfolding lookup
templates-IsKeyed id t h = ground arith

build_purchase_snapshot_lem_example :
    (s : TemplateSnapshot) × (ss : List PhaseRules) × (build_purchase_snapshot 5 templates
        first_phase
      ≡ some s)
    × (phases s ≡ first_phase ∷ ss)
    × (length ss ≤ 4)
    × IsLinked first_phase ss
    × (all_distinct (ids (first_phase ∷ ss)) ≡ true)
    × IsComplete templates first_phase ss
build_purchase_snapshot_lem_example =
    build_purchase_snapshot_lem 5 templates first_phase templates-IsKeyed (omega arith)

abbrev bought : PurchaseRow
bought = record {
  user_id = 5;
  template_id = 1;
  status = pending;
  amount = pos 900_000_000;
  list_price = pos 900_000_000;
  discount_amount = pos 0;
  coupon_id = none;
  currency = 230;
  provider_tx_ref = 77;
  idempotency_key = some 4;
  snapshot = phase_then first_phase (last_phase second_phase);
  created_at = now;
  payment_date = none;
  refunded_at = none;
  cancelled_at = none;
}

abbrev sales : Sales
sales = record {
  db = record {
    templates = templates;
    accounts = [];
    positions = [];
    trades = [];
    orders = [];
    ledger = [];
    snapshots = [];
    notes = [];
    next_id = 9;
  };
  purchases = (1, bought) ∷ [];
  coupons = [];
  offers = [];
  owned = [];
  book = record { users = []; rewards = []; commission = unset; debits = []; notes = [] };
  sale_ledger = [];
  next_purchase = 2;
}

abbrev activated : Sales
activated =
    write_activation now 1 chapa bought
      (record sales { purchases = insert 1 (claimed_row now bought) sales.purchases }) [] false

activates : activate_read now 1 chapa bought sales ≡ sold activated
unfolding activate_read fulfil record_coupon_redemption lookup
activates = refl

activate_once_example :
    (lookup 1 activated.purchases ≡ some (claimed_row now bought))
    × (activated.owned ≡ (1, 9) ∷ [])
    × (activated.db.accounts ≡ (9, purchased_account 5 now bought.snapshot) ∷ [])
    × (activate_read (now + 1) 1 chapa bought activated ≡ sold activated)
unfolding lookup
activate_once_example =
    activate_once now (now + 1) 1 chapa chapa bought bought sales activated refl refl refl activates
      (inl refl)

abbrev answer : Verification
answer = record {
  payment_status = success;
  amount = some (pos 900_000_000);
  currency = 230;
  tx_ref = 77;
}

verify_and_complete_lem_example :
    IsUntouched sales (verify_and_complete now 77 (some answer) sales).1
    ⊎ ((id : ℕ) × (p : PurchaseRow) × (find_by_ref 77 sales.purchases ≡ some (id, p))
        × IsPayment (some answer) p
        × (activate_purchase now id chapa sales
            ≡ sold (verify_and_complete now 77 (some answer) sales).1))
verify_and_complete_lem_example = verify_and_complete_lem now 77 (some answer) sales

-- The account of the purchase, and one that progressed from it.
abbrev running : Sales
running = record sales {
  db = record sales.db {
    accounts = (11, record account { previous_account = some 9 }) ∷ (9, account) ∷ [];
  };
  purchases = (1, record bought { status = paid }) ∷ [];
  owned = (1, 9) ∷ [];
}

reversal_lem_example :
    ((t : Sales) × (refund_purchase now 1 running ≡ sold t) × IsReversed 1 running t)
    × ((t : Sales) × (cancel_purchase now 1 running ≡ sold t) × IsReversed 1 running t)
unfolding lookup find_follower
reversal_lem_example =
    reversal_lem now 1 running (record bought { status = paid }) (λ id next a h. ground arith)
      (λ id. ground arith) refl refl

abbrev call : InitiateInput
call = record { user_id = 5; template_id = 1; idempotency_key = some 4; coupon_code = none }

single : HasSingleAttempts sales
unfolding attempts
single key = ground arith

-- The attempt with the key 4 is repeated, its checkout fails, and another trader asks for a template that
-- is not offered.
abbrev attempts_made : List Event
attempts_made =
    initiates now 78 true call
    ∷ changes (fail_pending 1)
    ∷ initiates (now + 5) 79 true call
    ∷ initiates (now + 9) 80 false (record call { user_id = 6; idempotency_key = some 5 })
    ∷ []

initiate_purchase-single_example : attempts 4 (run attempts_made sales) ≤ 1
unfolding entries
initiate_purchase-single_example =
    initiate_purchase-single attempts_made sales (tt, (fail-Keeps 1, (tt, (tt, tt))))
      (omega arith, tt) single 4
