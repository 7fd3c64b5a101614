-- ===== src/Services/Purchases/Keeping.antt =====
-- What leaves the purchases of an attempt as they are.
use mella_dashboard.Base.{
  ℕ, ◌+◌, ◌≡◌, refl, sym, ap, ◌∙◌, ◌==◌, ==_iff, Bool, false, Option, none, some, List, [], ◌∷◌,
  map, count_if, arith, lookup, insert, if◌then◌else◌, Bool-cases, Option-cases, inl, inr,
}
use mathlib.Core.Option.{some-injective}
use mella_dashboard.Services.Store.{conflict}
use mella_dashboard.Services.Coupons.{pending, failed, paid, refunded, cancelled}
use mella_dashboard.Services.Purchases.{
  PurchaseRow, Sales, sold, refused, ActivationSource, same_status, claimed_row, coupon, fulfil,
  activate_read, activate_purchase,
}
use mella_dashboard.Services.Purchases.Activating.{
  claimed_sales, fulfil-written, write-keeps, write-next, sold-injective,
}
use mella_dashboard.Services.Purchases.Verified.{sale-cases}
use mella_dashboard.Services.Purchases.Payment.{fail_pending, mark_purchase_failed}
use mella_dashboard.Services.Purchases.Initiation.{
  InitiateInput, has_key, activate_free_purchase, revive, resume_checkout, resume_purchase,
}

-- The purchases of an attempt.
unfoldable pub attempts : ℕ → Sales → ℕ
attempts key s = count_if (λ row. has_key key row.1) s.purchases

-- The numbers and the keys of the purchases.
unfoldable pub entries : List (ℕ × PurchaseRow) → List (ℕ × Option ℕ)
entries ps = map (λ row. (row.0, row.1.idempotency_key)) ps

-- A call that leaves the numbers and the keys as they are.
abbrev pub Keeps : Sales → Sales → Type 0
Keeps s t = (entries t.purchases ≡ entries s.purchases) × (t.next_purchase ≡ s.next_purchase)

entries-insert :
    (id : ℕ) (p q : PurchaseRow) (ps : List (ℕ × PurchaseRow))
    → lookup id ps ≡ some p
    → q.idempotency_key ≡ p.idempotency_key
    → entries (insert id q ps) ≡ entries ps
unfolding lookup insert entries
entries-insert id p q [] h e = cc
entries-insert id p q (r ∷ rs) h e = elim (Bool-cases (r.0 == id)) [
  | inl m ↦
      let same : r.1 ≡ p = some-injective _ _ (sym (rw m refl) ∙ h) in
      let number = (==_iff r.0 id).0 m in
      let keys : q.idempotency_key ≡ r.1.idempotency_key =
        e ∙ ap (λ x. x.idempotency_key) (sym same) in
      rw m (
        ap (λ n. (n, q.idempotency_key) ∷ entries rs) (sym number)
        ∙ ap (λ k. (r.0, k) ∷ entries rs) keys)
  | inr m ↦ rw m (
      ap (λ es. (r.0, r.1.idempotency_key) ∷ es) (entries-insert id p q rs (sym (rw m refl) ∙ h) e))
]

counted-entries :
    (key : ℕ) (ps : List (ℕ × PurchaseRow))
    → count_if (λ row. has_key key row.1) ps
      ≡ count_if (λ (e : ℕ × Option ℕ). elim e.1 [ none ↦ false | some k ↦ k == key ]) (entries ps)
unfolding entries
counted-entries key [] = refl
counted-entries key (p ∷ ps) =
    ap (λ n. (if has_key key p.1 then 1 else 0) + n) (counted-entries key ps)

pub attempts-entries :
    (key : ℕ) (s : Sales)
    → attempts key s
      ≡ count_if
          (λ (e : ℕ × Option ℕ). elim e.1 [ none ↦ false | some k ↦ k == key ])
          (entries s.purchases)
unfolding attempts
attempts-entries key s = counted-entries key s.purchases

pub Keeps-attempts : (key : ℕ) (s t : Sales) → Keeps s t → attempts key t ≡ attempts key s
unfolding attempts
Keeps-attempts key s t (e, n) =
    counted-entries key t.purchases
    ∙ ap (count_if (λ (e : ℕ × Option ℕ). elim e.1 [ none ↦ false | some k ↦ k == key ])) e
    ∙ sym (counted-entries key s.purchases)

pub fail-Keeps : (id : ℕ) (s : Sales) → Keeps s (fail_pending id s)
unfolding fail_pending
fail-Keeps id s = elim (Option-cases (lookup id s.purchases)) [
  | inl n ↦ rw (n, fail_pending) (refl, refl)
  | inr (p, e) ↦ elim (Bool-cases (same_status p.status pending)) [
    | inl b ↦
        rw (e, fail_pending)
          (rw b (entries-insert id p (record p { status = failed }) s.purchases e refl, refl))
    | inr b ↦ rw (e, fail_pending) (rw b (refl, refl))
  ]
]

mark-Keeps : (id : ℕ) (s : Sales) → Keeps s (mark_purchase_failed id s)
unfolding mark_purchase_failed
mark-Keeps id s = elim (Option-cases (lookup id s.purchases)) [
  | inl n ↦ rw (n, mark_purchase_failed) (refl, refl)
  | inr (p, e) ↦ elim (Bool-cases (same_status p.status pending)) [
    | inl b ↦ rw (e, mark_purchase_failed) (rw b (fail-Keeps id s))
    | inr b ↦ rw (e, mark_purchase_failed) (rw b (refl, refl))
  ]
]

revive-Keeps :
    (id : ℕ) (p : PurchaseRow) (s : Sales)
    → lookup id s.purchases ≡ some p
    → Keeps s (revive id p s)
unfolding revive
revive-Keeps id p s h = elim (Bool-cases (same_status p.status failed)) [
  | inl b ↦ rw b (entries-insert id p (record p { status = pending }) s.purchases h refl, refl)
  | inr b ↦ rw b (refl, refl)
]

fulfil-Keeps :
    (now id : ℕ) (source : ActivationSource) (before p : PurchaseRow) (s t : Sales)
    → lookup id s.purchases ≡ some p
    → fulfil now id source before p s ≡ sold t
    → Keeps s t
fulfil-Keeps now id source before p s t h e =
    let (coupons, over, written) = fulfil-written now id source before p s t e in
    let claimed = claimed_sales now id p s in
    (
      ap entries
            (ap (λ x. x.purchases) written ∙ write-keeps now id source before claimed coupons over)
          ∙ entries-insert id p (claimed_row now p) s.purchases h refl,
      ap (λ x. x.next_purchase) written ∙ write-next now id source before claimed coupons over,
    )

same-Keeps : (s t : Sales) → sold s ≡ sold t → Keeps s t
same-Keeps s t e =
    let same = sym (sold-injective s t e) in
    (ap (λ x. entries x.purchases) same, ap (λ x. x.next_purchase) same)

activate-Keeps :
    (now id : ℕ) (source : ActivationSource) (p : PurchaseRow) (s t : Sales)
    → lookup id s.purchases ≡ some p
    → activate_read now id source p s ≡ sold t
    → Keeps s t
unfolding activate_read
activate-Keeps now id source p s t h e = elim (Bool-cases (same_status p.status paid)) [
  | inl a ↦ same-Keeps s t (sym (rw a refl) ∙ e)
  | inr a ↦ elim (Bool-cases (same_status p.status refunded)) [
    | inl b ↦ let clash : refused conflict ≡ sold t = sym (rw a (rw b refl)) ∙ e in cc
    | inr b ↦ elim (Bool-cases (same_status p.status cancelled)) [
      | inl c ↦ let clash : refused conflict ≡ sold t = sym (rw a (rw b (rw c refl))) ∙ e in cc
      | inr c ↦ elim (Bool-cases (same_status p.status p.status)) [
        | inl d ↦
            fulfil-Keeps now id source p p s t h
              (sym (rw a (rw b (rw c (rw (h, activate_read) (rw d refl))))) ∙ e)
        | inr d ↦ same-Keeps s t (sym (rw a (rw b (rw c (rw (h, activate_read) (rw d refl))))) ∙ e)
      ]
    ]
  ]
]

pub free-Keeps :
    (now id : ℕ) (p : PurchaseRow) (s : Sales)
    → lookup id s.purchases ≡ some p
    → Keeps s (activate_free_purchase now id s).1
unfolding activate_free_purchase activate_purchase
free-Keeps now id p s h = elim (sale-cases (activate_read now id coupon p s)) [
  | inl (t, e) ↦
      rw (h, activate_free_purchase, activate_purchase)
        (rw e (activate-Keeps now id coupon p s t h e))
  | inr (inl (f, e)) ↦ rw (h, activate_free_purchase, activate_purchase) (rw e (refl, refl))
  | inr (inr (c, e)) ↦ rw (h, activate_free_purchase, activate_purchase) (rw e (mark-Keeps id s))
]

pub resume-Keeps :
    (now : ℕ) (opens : Bool) (i : InitiateInput) (id : ℕ) (p : PurchaseRow) (s : Sales)
    → lookup id s.purchases ≡ some p
    → Keeps s (resume_purchase now opens i id p s).1
unfolding resume_purchase resume_checkout
resume-Keeps now opens i id p s h =
    let marked = mark-Keeps id s in
    let revived = revive-Keeps id p s h in
    let free = free-Keeps now id p s h in
    ground (arith, marked.0, marked.1, revived.0, revived.1, free.0, free.1)
