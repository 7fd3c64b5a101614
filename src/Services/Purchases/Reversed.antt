-- ===== src/Services/Purchases/Reversed.antt =====
-- What a refund or a cancellation stops.
use mella_dashboard.Base.{
  ℕ, zero, suc, ◌≤◌, ◌≡◌, ◌⊎◌, refl, sym, ap, ◌∙◌, ==_iff, some, List, neg_ℤ, All, arith, lookup,
  insert, lookup-insert, Bool-cases, Option-cases, inl, inr,
}
use mathlib.Core.Option.{some-injective}
use mella_dashboard.Services.Store.{TradingAccount, Db, conflict}
use mella_dashboard.Services.Engine.Commands.{is_trading}
use mella_dashboard.Services.Coupons.{paid, refunded, cancelled}
use mella_dashboard.Services.Referrals.{ReferralReward, ReferralBook, RewardStatus, void_reward}
use mella_dashboard.Services.Purchases.{
  PurchaseRow, refund, add_sale_entry, Sales, sold, refused, ActivationSource, activate_purchase,
  activate_read,
}
use mella_dashboard.Services.Purchases.Reversal.{
  find_follower, followers_of, account_chain, suspend_purchase_accounts, reverse_effects,
  refund_purchase, cancel_purchase, refunded_text, cancelled_text,
}
use mella_dashboard.Services.Purchases.Followers.{
  HasSingleFollowers, HasProgressed, progressed-member,
}
use mella_dashboard.Services.Purchases.Stopping.{IsStopped, IsRead, suspend_all-stops}

-- An account that is found by the one before it is the one with its number.
abbrev pub IsIndexed : List (ℕ × TradingAccount) → Type 0
IsIndexed accounts =
    (id next : ℕ) (a : TradingAccount)
    → find_follower id accounts ≡ some (next, a)
    → lookup next accounts ≡ some a

stored-IsRead :
    (id : ℕ) (a : TradingAccount) (db : Db)
    → lookup id db.accounts ≡ some a
    → IsRead db (id, a.status)
stored-IsRead id a db h = elim (Bool-cases (is_trading a.status)) [
  | inl t ↦ inl t
  | inr f ↦ inr (λ b k. ap (λ x. is_trading x.status) (some-injective _ _ (sym k ∙ h)) ∙ f)
]

followers-IsRead :
    (rounds id : ℕ) (db : Db)
    → IsIndexed db.accounts
    → All (IsRead db) (followers_of rounds id db.accounts)
unfolding followers_of
followers-IsRead zero id db k = tt
followers-IsRead (suc rounds) id db k = elim (Option-cases (find_follower id db.accounts)) [
  | inl n ↦ rw (n, followers_of) tt
  | inr ((next, a), e) ↦
      rw (e, followers_of)
        (stored-IsRead next a db (k id next a e), followers-IsRead rounds next db k)
]

chain-IsRead :
    (id : ℕ) (s : Sales) → IsIndexed s.db.accounts → All (IsRead s.db) (account_chain id s)
unfolding account_chain
chain-IsRead id s k = elim (Option-cases (lookup id s.owned)) [
  | inl n ↦ rw (n, account_chain) tt
  | inr (account, e) ↦ elim (Option-cases (lookup account s.db.accounts)) [
    | inl n ↦ rw (e, account_chain) (rw (n, account_chain) tt)
    | inr (a, h) ↦
        rw (e, account_chain)
          (rw (h, account_chain)
            (stored-IsRead account a s.db h, followers-IsRead 4 account s.db k))
  ]
]

void_reward-settled :
    (id : ℕ) (b : ReferralBook) (r : ReferralReward)
    → lookup id (void_reward id b).rewards ≡ some r
    → (r.status ≡ RewardStatus.void) ⊎ (r.status ≡ RewardStatus.paid)
unfolding void_reward
void_reward-settled id b r h = elim (Option-cases (lookup id b.rewards)) [
  | inl n ↦ ground (arith, n, h)
  | inr (q, e) ↦ ground (
    arith,
    e,
    h,
    (==_iff id id).1 refl,
    lookup-insert id id (record q { status = RewardStatus.void }) b.rewards,
  )
]

-- A purchase that has been reversed: neither its account nor one of the four that progressed from it in
-- turn trades, no activation brings it back, and its reward is void, or was paid before.
pub record IsReversed (id : ℕ) (s t : Sales) : Type 0 where
  pub stopped :
      (account n j : ℕ) (a : TradingAccount)
      → lookup id s.owned ≡ some account
      → lookup account s.db.accounts ≡ some a
      → n ≤ 4
      → HasProgressed n s.db.accounts account j
      → IsStopped j t.db
  pub final :
      (later : ℕ) (source : ActivationSource)
      → activate_purchase later id source t ≡ refused conflict
  pub reward_settled :
      (r : ReferralReward)
      → lookup id t.book.rewards ≡ some r
      → (r.status ≡ RewardStatus.void) ⊎ (r.status ≡ RewardStatus.paid)

-- What holds of the chain holds of everything that progressed.
chain-IsStopped :
    (id : ℕ) (s : Sales) (db : Db)
    → All (λ x. IsStopped x.0 db) (account_chain id s)
    → HasSingleFollowers s.db.accounts
    → (account n j : ℕ) (a : TradingAccount) → lookup id s.owned ≡ some account
    → lookup account s.db.accounts ≡ some a
    → n ≤ 4
    → HasProgressed n s.db.accounts account j
    → IsStopped j db
unfolding account_chain
chain-IsStopped id s db all single account zero j a o h l p =
    let (first, more) = rw (h, account_chain) at rw (o, account_chain) at all in rw p first
chain-IsStopped id s db all single account (suc n) j a o h l p =
    let (first, more) = rw (h, account_chain) at rw (o, account_chain) at all in
    let found =
      progressed-member (λ x. IsStopped x.0 db) 4 n account j s.db.accounts single l p more in
    found.1

chain-same :
    (id : ℕ) (s t : Sales)
    → t.db ≡ s.db
    → t.owned ≡ s.owned
    → account_chain id t ≡ account_chain id s
unfolding account_chain
chain-same id s t d o = rw (d, o) refl

reversed-refused :
    (now id : ℕ) (source : ActivationSource) (p : PurchaseRow) (s : Sales)
    → lookup id s.purchases ≡ some p
    → (p.status ≡ refunded) ⊎ (p.status ≡ cancelled)
    → activate_purchase now id source s ≡ refused conflict
unfolding activate_purchase activate_read
reversed-refused now id source p s h (inl e) = rw (h, activate_purchase) (rw e refl)
reversed-refused now id source p s h (inr e) = rw (h, activate_purchase) (rw e refl)

effects-IsReversed :
    (now reason id : ℕ) (s t : Sales) (p : PurchaseRow)
    → IsIndexed s.db.accounts
    → HasSingleFollowers s.db.accounts
    → t.db ≡ s.db
    → t.owned ≡ s.owned
    → lookup id t.purchases ≡ some p
    → (p.status ≡ refunded) ⊎ (p.status ≡ cancelled)
    → IsReversed id s (reverse_effects now reason id t)
unfolding reverse_effects suspend_purchase_accounts
effects-IsReversed now reason id s t p k single d o h f =
    let same : account_chain id t ≡ account_chain id s = chain-same id s t d o in
    record {
      stopped =
          chain-IsStopped id s (reverse_effects now reason id t).db
            (rw (same, d)
              (suspend_all-stops now reason (account_chain id s) s.db (chain-IsRead id s k)))
            single;
      final = λ later source. reversed-refused later id source p _ h f;
      reward_settled = void_reward-settled id t.book;
    }

-- Where no account has two followers, a paid purchase can be refunded and can be cancelled, and either
-- way it is reversed: its account and the four that progressed from it, each from the one before, stop
-- trading; no later activation of it succeeds, whatever its source; and its reward is void unless it was
-- paid before.
pub reversal_lem :
    (now id : ℕ) (s : Sales) (p : PurchaseRow)
    → IsIndexed s.db.accounts
    → HasSingleFollowers s.db.accounts
    → lookup id s.purchases ≡ some p
    → p.status ≡ paid
    → ((t : Sales) × (refund_purchase now id s ≡ sold t) × IsReversed id s t)
      × ((t : Sales) × (cancel_purchase now id s ≡ sold t) × IsReversed id s t)
unfolding refund_purchase cancel_purchase
reversal_lem now id s p k single h e =
    let back : PurchaseRow = record p { status = refunded; refunded_at = some now } in
    let off : PurchaseRow = record p { status = cancelled; cancelled_at = some now } in
    let refunding : Sales = record s {
      purchases = insert id back s.purchases;
      sale_ledger =
          add_sale_entry (record { purchase_id = id; type = refund; amount = neg_ℤ p.amount })
            s.sale_ledger;
    } in
    let cancelling : Sales = record s { purchases = insert id off s.purchases } in
    (
      (
        reverse_effects now refunded_text id refunding,
        rw (h, refund_purchase) (rw e refl),
        effects-IsReversed now refunded_text id s refunding back k single refl refl
            (lookup-insert id id back s.purchases ∙ rw ((==_iff id id).1 refl) refl) (inl refl),
      ),
      (
        reverse_effects now cancelled_text id cancelling,
        rw (h, cancel_purchase) (rw e refl),
        effects-IsReversed now cancelled_text id s cancelling off k single refl refl
            (lookup-insert id id off s.purchases ∙ rw ((==_iff id id).1 refl) refl) (inr refl),
      ),
    )
