-- ===== src/Services/Purchases/Verified.antt =====
-- Only a payment that matches its purchase activates it.
use mella_dashboard.Base.{
  ℕ, ◌≡◌, ◌⊎◌, refl, true, ◌||◌, Option, none, some, eq_of_parts, arith, Bool-cases, Option-cases,
  inl, inr,
}
use mella_dashboard.Money.{Amount, round_currency}
use mella_dashboard.Services.Store.{Failure}
use mella_dashboard.Services.Coupons.{paid, refunded, cancelled, CouponRejectReason}
use mella_dashboard.Services.Purchases.{
  PurchaseRow, Sales, Sale, sold, refused, coupon_refused, chapa, same_status, activate_purchase,
}
use mella_dashboard.Services.Purchases.Payment.{
  success, Verification, is_match, find_by_ref, verify_and_complete, complete_verified,
  mark_purchase_failed, fail_pending, is_open_status, same_amount, outcome_of,
}

-- The answer of the payment provider agrees with the stored purchase.
pub record IsPayment (v : Option Verification) (p : PurchaseRow) : Type 0 where
  pub verification : Verification
  pub answered : v ≡ some verification
  pub succeeded : verification.payment_status ≡ success
  pub sum : Amount
  pub stated : verification.amount ≡ some sum
  pub same_sum : round_currency sum ≡ round_currency p.amount
  pub same_currency : verification.currency ≡ p.currency
  pub same_ref : verification.tx_ref ≡ p.provider_tx_ref

-- The tables that an activation writes.
pub record IsUntouched (s t : Sales) : Type 0 where
  pub owned : t.owned ≡ s.owned
  pub accounts : t.db.accounts ≡ s.db.accounts
  pub coupons : t.coupons ≡ s.coupons
  pub book : t.book ≡ s.book
  pub sale_ledger : t.sale_ledger ≡ s.sale_ledger

untouched : (s : Sales) → IsUntouched s s
untouched s = record {
  owned = refl;
  accounts = refl;
  coupons = refl;
  book = refl;
  sale_ledger = refl;
}

marked-IsUntouched : (id : ℕ) (s : Sales) → IsUntouched s (mark_purchase_failed id s)
unfolding mark_purchase_failed fail_pending
marked-IsUntouched id s = record {
  owned = ground arith;
  accounts = ground arith;
  coupons = ground arith;
  book = ground arith;
  sale_ledger = ground arith;
}

same_amount-sum :
    (o : Option Amount) (v : Amount)
    → same_amount o v ≡ true
    → (w : Amount) × (o ≡ some w) × (round_currency w ≡ round_currency v)
same_amount-sum none v h = cc
same_amount-sum (some w) v h =
    (w, refl, eq_of_parts (round_currency w) (round_currency v) (ground arith))

match-IsPayment : (v : Verification) (p : PurchaseRow) → is_match v p ≡ true → IsPayment (some v) p
unfolding is_match
match-IsPayment v p h =
    let (w, stated, same) = same_amount-sum v.amount p.amount (ground arith) in
    record {
      sum = w;
      stated = stated;
      verification = v;
      answered = refl;
      succeeded = ground arith;
      same_sum = same;
      same_currency = ground arith;
      same_ref = ground arith;
    }

no_loss :
    (t : Sales)
    → ((f : Failure) × (sold t ≡ refused f))
      ⊎ ((c : CouponRejectReason) × (sold t ≡ coupon_refused c))
    → ⊥
no_loss t (inl (f, e)) = cc
no_loss t (inr (c, e)) = cc

pub sale-cases :
    (r : Sale)
    → ((t : Sales) × (r ≡ sold t))
      ⊎ (((f : Failure) × (r ≡ refused f)) ⊎ ((c : CouponRejectReason) × (r ≡ coupon_refused c)))
sale-cases (sold t) = inl (t, refl)
sale-cases (refused f) = inr (inl (f, refl))
sale-cases (coupon_refused c) = inr (inr (c, refl))

lost-IsUntouched :
    (r : Sale) (s : Sales)
    → ((f : Failure) × (r ≡ refused f)) ⊎ ((c : CouponRejectReason) × (r ≡ coupon_refused c))
    → IsUntouched s (outcome_of r s).1
lost-IsUntouched (sold t) s h = absurd (no_loss t h)
lost-IsUntouched (refused f) s h = untouched s
lost-IsUntouched (coupon_refused c) s h = untouched s

-- Either nothing that an activation writes has changed, or the payment matches.
complete-cases :
    (now id : ℕ) (p : PurchaseRow) (v : Option Verification) (s : Sales)
    → IsUntouched s (complete_verified now id p v s).1
      ⊎ (IsPayment v p
          × (activate_purchase now id chapa s ≡ sold (complete_verified now id p v s).1))
unfolding complete_verified
complete-cases now id p none s = inl (untouched s)
complete-cases now id p (some v) s = elim (Bool-cases (is_open_status v.payment_status)) [
  | inl o ↦ rw o (inl (untouched s))
  | inr c ↦ elim (Bool-cases (is_match v p)) [
    | inr n ↦ rw c (rw n (inl (marked-IsUntouched id s)))
    | inl m ↦ elim (sale-cases (activate_purchase now id chapa s)) [
      | inl (t, e) ↦ rw c (rw m (rw e (inr (match-IsPayment v p m, refl))))
      | inr lost ↦ rw c (rw m (inl (lost-IsUntouched (activate_purchase now id chapa s) s lost)))
    ]
  ]
]

-- Whatever the provider answers, a purchase is activated only when the payment succeeded with the
-- rounded amount, the currency and the reference of the stored purchase under the reference asked for;
-- else no account is opened, no redemption counted, no reward credited and no entry written.
pub verify_and_complete_lem :
    (now ref : ℕ) (v : Option Verification) (s : Sales)
    → IsUntouched s (verify_and_complete now ref v s).1
      ⊎ ((id : ℕ) × (p : PurchaseRow) × (find_by_ref ref s.purchases ≡ some (id, p))
          × IsPayment v p
          × (activate_purchase now id chapa s ≡ sold (verify_and_complete now ref v s).1))
unfolding verify_and_complete
verify_and_complete_lem now ref v s = elim (Option-cases (find_by_ref ref s.purchases)) [
  | inl n ↦ inl (rw (n, verify_and_complete) (untouched s))
  | inr ((id, p), e) ↦ elim (Bool-cases (same_status p.status paid)) [
    | inl a ↦ inl (rw (e, verify_and_complete) (rw a (untouched s)))
    | inr a ↦ elim (Bool-cases (same_status p.status refunded || same_status p.status cancelled)) [
      | inl b ↦ inl (rw (e, verify_and_complete) (rw a (rw b (untouched s))))
      | inr b ↦
          let step : verify_and_complete now ref v s ≡ complete_verified now id p v s =
            rw (e, verify_and_complete) (rw a (rw b refl)) in
          elim (complete-cases now id p v s) [
            | inl u ↦ inl (rw step u)
            | inr (pays, sale) ↦ inr (id, p, e, pays, rw step sale)
          ]
    ]
  ]
]
