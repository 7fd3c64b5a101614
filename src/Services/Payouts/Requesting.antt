-- ===== src/Services/Payouts/Requesting.antt =====
-- Which requests of `createPayout` succeed, and what they leave uncommitted.
use mella_dashboard.Base.{
  ℕ, ◌≤◌, ◌≡◌, ◌↔◌, ◌⊎◌, refl, sym, ap, ◌∙◌, ==_iff, pos, ◌+ℤ◌, ◌-ℤ◌, ◌≤ℤ◌, max_ℤ, true, none, some,
  List, [], ◌∷◌, All, arith, int_laws, lookup, Bool-cases, Option-cases, inl, inr, ltb_ℤ, ◌==◌,
  ◌||◌, ◌&&◌,
}
use mella_dashboard.Money.{round_currency, round_percent_of}
use mella_dashboard.Money.Rounding.{round_currency-whole, round_currency_nearest}
use mella_dashboard.Challenge.Types.{funded}
use mella_dashboard.Challenge.Manual.{same}
use mella_dashboard.Services.Store.{TradingAccount, Db, done, refused, Failure, not_found, conflict}
use mella_dashboard.Services.Engine.Commands.{evaluate_account}
use mella_dashboard.Services.Engine.Claims.{same_iff}
use mella_dashboard.Services.Ledger.Money.{IsWhole, IsWhole-+ℤ, IsWhole--ℤ}
use mella_dashboard.Services.Payouts.Outcomes.{done-injective, Outcome-cases}
use mella_dashboard.Services.Payouts.{
  Payout, Treasury, PayoutInput, PayoutAvailability, min_payout, min_funded_days, committed,
  compute_payout_availability, create_payout, request_transaction, request_refusal, write_request,
  requested_payout, trader_share, is_pending, is_approved,
}

-- What a request needs, of the availability after a fresh evaluation.
pub record IsRequestable (i : PayoutInput) (a : TradingAccount) (v : PayoutAvailability)
    : Type 0 where
  pub large_enough : min_payout ≤ℤ round_currency i.amount
  pub permitted : (i.by_admin ≡ true) ⊎ (a.user_id ≡ i.requested_by)
  pub is_funded : a.status ≡ funded
  pub verified : v.kyc_approved ≡ true
  pub long_enough : min_funded_days ≤ v.funded_days
  pub consistent : v.consistency.ok ≡ true
  pub covered : round_currency i.amount ≤ℤ v.available

refusal_iff :
    (i : PayoutInput) (a : TradingAccount) (v : PayoutAvailability)
    → min_payout ≤ℤ round_currency i.amount
    → (request_refusal i a v ≡ none) ↔ IsRequestable i a v
unfolding request_refusal
refusal_iff i a v h = (
  (λ e. record {
    large_enough = h;
    permitted = ground arith;
    is_funded = same_iff a.status funded (ground arith);
    verified = ground arith;
    long_enough = ground arith;
    consistent = ground arith;
    covered = ground arith;
  }),
  (λ r. ground (
    arith,
    r.permitted,
    r.verified,
    r.long_enough,
    r.consistent,
    r.covered,
    ap (λ s. same s funded) r.is_funded,
  )),
)

transaction-cases :
    (now : ℕ) (i : PayoutInput) (a : TradingAccount) (t : Treasury)
    → lookup i.trading_account_id t.db.accounts ≡ some a
    → let v = compute_payout_availability now i.trading_account_id a t in
      ((request_refusal i a v ≡ none)
        × (request_transaction now i t ≡ done (write_request now i a t)))
      ⊎ ((f : Failure) × (request_refusal i a v ≡ some f)
          × (request_transaction now i t ≡ refused f))
unfolding request_transaction
transaction-cases now i a t h =
    elim (Option-cases
      (request_refusal i a (compute_payout_availability now i.trading_account_id a t))) [
        | inl e ↦ inl (e, rw (h, request_transaction) (rw e refl))
        | inr (f, e) ↦ inr (f, e, rw (h, request_transaction) (rw e refl))
      ]

-- Where the evaluation of the account succeeds, a request succeeds exactly when its rounded amount
-- reaches the minimum, the trader asks for an own account or an administrator does, the account is
-- funded, the trader verified, the funding old enough, the consistency rule satisfied, and the amount
-- covered by what is available; it then only adds the pending payout and its two notes.
pub create_payout_iff :
    (now : ℕ) (i : PayoutInput) (a : TradingAccount) (db : Db) (t : Treasury)
    → evaluate_account now i.trading_account_id t.db ≡ done db
    → lookup i.trading_account_id db.accounts ≡ some a
    → let fresh = record t { db = db } in
      (create_payout now i t ≡ done (write_request now i a fresh))
      ↔ IsRequestable i a (compute_payout_availability now i.trading_account_id a fresh)
unfolding create_payout
create_payout_iff now i a db t e h =
    let fresh : Treasury = record t { db = db } in
    let v = compute_payout_availability now i.trading_account_id a fresh in
    elim (Bool-cases (ltb_ℤ (round_currency i.amount) min_payout)) [
      | inl small ↦ (
        (λ k.
            let clash : refused conflict ≡ done (write_request now i a fresh) =
              sym (rw small refl) ∙ k in
            cc),
        (λ r. let large = r.large_enough in ground arith),
      )
      | inr large ↦
          let enough : min_payout ≤ℤ round_currency i.amount = ground arith in
          let step : create_payout now i t ≡ request_transaction now i fresh =
            rw (e, create_payout) (rw large refl) in
          elim (transaction-cases now i a fresh h) [
            | inl (none_left, written) ↦
                ((λ k. (refusal_iff i a v enough).0 none_left), (λ r. step ∙ written))
            | inr (f, found, refusal) ↦ (
              (λ k.
                  let clash : refused f ≡ done (write_request now i a fresh) =
                    sym (step ∙ refusal) ∙ k in
                  cc),
              (λ r. let clash : some f ≡ none = sym found ∙ (refusal_iff i a v enough).1 r in cc),
            )
          ]
    ]

-- Every payout is a whole number of cents.
abbrev pub AllWhole : List (ℕ × Payout) → Type 0
AllWhole payouts = All (λ row. IsWhole row.1.amount) payouts

committed-IsWhole : (id : ℕ) (ps : List (ℕ × Payout)) → AllWhole ps → IsWhole (committed id ps)
unfolding committed
committed-IsWhole id [] h = refl
committed-IsWhole id (p ∷ ps) (h, hs) =
    let ih = committed-IsWhole id ps hs in
    elim (Bool-cases (p.1.account_id == id && (is_pending p.1.status || is_approved p.1.status))) [
      | inl e ↦ rw e (IsWhole-+ℤ p.1.amount (committed id ps) h ih)
      | inr e ↦ rw e ih
    ]

trader_share-IsWhole : (a : TradingAccount) → IsWhole (trader_share a)
unfolding trader_share round_percent_of
trader_share-IsWhole a = ground arith

-- What a request that succeeded had found.
pub record IsRequested (now : ℕ) (i : PayoutInput) (t after : Treasury) : Type 0 where
  pub db : Db
  pub account : TradingAccount
  pub evaluated : evaluate_account now i.trading_account_id t.db ≡ done db
  pub stored : lookup i.trading_account_id db.accounts ≡ some account
  pub written : after ≡ write_request now i account (record t { db = db })
  pub requestable :
      IsRequestable i account
        (compute_payout_availability now i.trading_account_id account (record t { db = db }))

pub create_payout-IsRequested :
    (now : ℕ) (i : PayoutInput) (t after : Treasury)
    → create_payout now i t ≡ done after
    → IsRequested now i t after
unfolding create_payout request_transaction
create_payout-IsRequested now i t after k =
    elim (Bool-cases (ltb_ℤ (round_currency i.amount) min_payout)) [
      | inl small ↦ let clash : refused conflict ≡ done after = sym (rw small refl) ∙ k in cc
      | inr large ↦
          let enough : min_payout ≤ℤ round_currency i.amount = ground arith in
          elim (Outcome-cases (evaluate_account now i.trading_account_id t.db)) [
            | inl (f, e) ↦
                let clash : refused f ≡ done after =
                  sym (rw (e, create_payout) (rw large refl)) ∙ k in
                cc
            | inr (db, e) ↦
                let fresh : Treasury = record t { db = db } in
                let step : create_payout now i t ≡ request_transaction now i fresh =
                  rw (e, create_payout) (rw large refl) in
                elim (Option-cases (lookup i.trading_account_id db.accounts)) [
                  | inl h ↦
                      let clash : refused not_found ≡ done after =
                        sym (step ∙ rw (h, request_transaction) refl) ∙ k in
                      cc
                  | inr (a, h) ↦ elim (transaction-cases now i a fresh h) [
                    | inl (allowed, written) ↦ record {
                      db = db;
                      account = a;
                      evaluated = e;
                      stored = h;
                      written = done-injective _ _ (sym k ∙ step ∙ written);
                      requestable = (refusal_iff i a _ enough).0 allowed;
                    }
                    | inr (f, found, refusal) ↦
                        let clash : refused f ≡ done after = sym (step ∙ refusal) ∙ k in cc
                  ]
                ]
          ]
    ]

committed-requested :
    (now n : ℕ) (i : PayoutInput) (a : TradingAccount) (ps : List (ℕ × Payout))
    → let id = i.trading_account_id in
      committed id ((n, requested_payout now i a) ∷ ps) ≡ round_currency i.amount +ℤ committed id ps
unfolding committed requested_payout
committed-requested now n i a ps =
    rw ((==_iff i.trading_account_id i.trading_account_id).1 refl) refl

-- After a successful request, everything still pending or approved on the account, the new payout
-- included, is at most the trader's share of its profit; all amounts stay whole cents.
pub create_payout-committed :
    (now : ℕ) (i : PayoutInput) (t after : Treasury)
    → AllWhole t.payouts
    → create_payout now i t ≡ done after
    → AllWhole after.payouts
      × ((a : TradingAccount) × (lookup i.trading_account_id after.db.accounts ≡ some a)
          × (committed i.trading_account_id after.payouts ≤ℤ trader_share a))
unfolding write_request compute_payout_availability requested_payout
create_payout-committed now i t after whole k =
    let r = create_payout-IsRequested now i t after k in
    let id = i.trading_account_id in
    let a = r.account in
    let amount = round_currency i.amount in
    let before = committed id t.payouts in
    let share = trader_share a in
    let amount_whole : IsWhole amount = (round_currency_nearest i.amount).0 in
    let before_whole : IsWhole before = committed-IsWhole id t.payouts whole in
    let share_whole : IsWhole share = trader_share-IsWhole a in
    let same_before : round_currency before ≡ before = round_currency-whole before before_whole in
    let covered : amount ≤ℤ round_currency (max_ℤ (pos 0) (share -ℤ before)) =
      rw same_before at r.requestable.covered in
    let exact : round_currency (max_ℤ (pos 0) (share -ℤ before)) ≡ max_ℤ (pos 0) (share -ℤ before) =
      round_currency-whole _ (ground (arith, IsWhole--ℤ share before share_whole before_whole)) in
    let bound : amount ≤ℤ share -ℤ before =
      ground (arith, rw exact at covered, r.requestable.large_enough) in
    rw r.written (
      (amount_whole, whole),
      (a, r.stored, rw (committed-requested now t.next_payout i a t.payouts) (omega int_laws)),
    )
