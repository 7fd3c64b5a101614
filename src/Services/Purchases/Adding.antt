-- ===== src/Services/Purchases/Adding.antt =====
-- A call of `initiateChapaPurchase` inserts the purchase of its own key, or none.
use mella_dashboard.Base.{
  ℕ, suc, ◌≤◌, ◌≡◌, ◌⊎◌, refl, sym, ◌∙◌, ◌==◌, ==_iff, Bool, false, none, some, List, [], ◌∷◌, pos,
  leb_ℤ, count_if, arith, lookup, Bool-cases, Option-cases, inl, inr,
}
use mella_dashboard.Services.Store.{TemplateSnapshot}
use mella_dashboard.Services.Coupons.{CouponRejectReason}
use mella_dashboard.Services.Purchases.{PurchaseRow, Sales}
use mella_dashboard.Services.Purchases.Snapshot.{build_purchase_snapshot}
use mella_dashboard.Services.Purchases.Initiation.{
  InitiateInput, has_key, find_by_key, Pricing, Priced, priced, no_coupon, price_purchase,
  is_purchasable, new_purchase, add_purchase, start_purchase, first_purchase,
}
use mella_dashboard.Services.Purchases.Keeping.{attempts, entries, Keeps, fail-Keeps, free-Keeps}

-- The key of a call.
abbrev pub is_call_of : ℕ → InitiateInput → Bool
is_call_of key i = elim i.idempotency_key [ none ↦ false | some k ↦ k == key ]

-- A call leaves the entries, or adds that of its own key under the next number.
abbrev pub AddsOwn : InitiateInput → Sales → Sales → Type 0
AddsOwn i s t =
    Keeps s t
    ⊎ ((entries t.purchases ≡ (s.next_purchase, i.idempotency_key) ∷ entries s.purchases)
        × (t.next_purchase ≡ suc s.next_purchase))

added-row :
    (p : PurchaseRow) (s : Sales) → lookup s.next_purchase (add_purchase p s).purchases ≡ some p
unfolding add_purchase lookup
added-row p s = rw ((==_iff s.next_purchase s.next_purchase).1 refl) refl

priced-cases :
    (x : Priced) → ((p : Pricing) × (x ≡ priced p)) ⊎ ((r : CouponRejectReason) × (x ≡ no_coupon r))
priced-cases (priced p) = inl (p, refl)
priced-cases (no_coupon r) = inr (r, refl)

start-adds :
    (now tx_ref : ℕ) (opens : Bool) (i : InitiateInput) (pricing : Pricing)
    (snapshot : TemplateSnapshot) (s : Sales)
    → let t = (start_purchase now opens (new_purchase now tx_ref i pricing snapshot) s).1 in
      (entries t.purchases ≡ (s.next_purchase, i.idempotency_key) ∷ entries s.purchases)
      × (t.next_purchase ≡ suc s.next_purchase)
unfolding start_purchase add_purchase new_purchase entries
start-adds now tx_ref opens i pricing snapshot s =
    let p = new_purchase now tx_ref i pricing snapshot in
    let added = add_purchase p s in
    elim (Bool-cases (leb_ℤ p.amount (pos 0))) [
      | inl f ↦ rw f (free-Keeps now s.next_purchase p added (added-row p s))
      | inr f ↦ elim (Bool-cases opens) [
        | inl o ↦ rw f (rw o (refl, refl))
        | inr o ↦ rw f (rw o (fail-Keeps s.next_purchase added))
      ]
    ]

pub first-adds :
    (now tx_ref : ℕ) (opens : Bool) (i : InitiateInput) (s : Sales)
    → AddsOwn i s (first_purchase now tx_ref opens i s).1
unfolding first_purchase
first-adds now tx_ref opens i s = elim (Option-cases (lookup i.template_id s.offers)) [
  | inl n ↦ inl (rw (n, first_purchase) (refl, refl))
  | inr (o, e) ↦ elim (Bool-cases (is_purchasable o)) [
    | inr b ↦ inl (rw (e, first_purchase) (rw b (refl, refl)))
    | inl b ↦ elim (priced-cases (price_purchase now i o s)) [
      | inr (reason, c) ↦ inl (rw (e, first_purchase) (rw b (rw (c, first_purchase) (refl, refl))))
      | inl (pricing, c) ↦ elim (Option-cases (lookup i.template_id s.db.templates)) [
        | inl n ↦ inl (rw (e, first_purchase) (rw b (rw c (rw (n, first_purchase) (refl, refl)))))
        | inr (t, d) ↦ elim (Option-cases (build_purchase_snapshot 5 s.db.templates t.rules)) [
          | inl n ↦
              inl
                (rw (e, first_purchase) (rw b (rw c (rw d (rw (n, first_purchase) (refl, refl))))))
          | inr (snapshot, g) ↦ inr (
              rw (e, first_purchase)
                (rw b (rw c (rw d (rw g (start-adds now tx_ref opens i pricing snapshot s))))))
        ]
      ]
    ]
  ]
]

none-found :
    (key : ℕ) (ps : List (ℕ × PurchaseRow))
    → find_by_key key ps ≡ none
    → count_if (λ row. has_key key row.1) ps ≡ 0
unfolding find_by_key
none-found key [] h = refl
none-found key (p ∷ ps) h = elim (Bool-cases (has_key key p.1)) [
  | inl m ↦ let clash : some p ≡ none = sym (rw m refl) ∙ h in cc
  | inr m ↦ rw m (omega (arith, none-found key ps (sym (rw m refl) ∙ h)))
]

pub none-counted : (key : ℕ) (s : Sales) → find_by_key key s.purchases ≡ none → attempts key s ≡ 0
unfolding attempts
none-counted key s h = none-found key s.purchases h

-- No attempt has two purchases.
abbrev pub HasSingleAttempts : Sales → Type 0
HasSingleAttempts s = (key : ℕ) → attempts key s ≤ 1

pub call-none : (key : ℕ) (i : InitiateInput) → i.idempotency_key ≡ none → is_call_of key i ≡ false
call-none key i h = rw h refl

pub call-some :
    (key k : ℕ) (i : InitiateInput) → i.idempotency_key ≡ some k → is_call_of key i ≡ (k == key)
call-some key k i h = rw h refl
