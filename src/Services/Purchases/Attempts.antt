-- ===== src/Services/Purchases/Attempts.antt =====
-- One purchase for one idempotency key.
use mella_dashboard.Base.{
  ℕ, suc, ◌+◌, ◌≤◌, ◌≡◌, refl, sym, ap, Option, ◌∙◌, ◌==◌, ==_iff, Bool, false, none, some, List,
  [], ◌∷◌, count_if, All, arith, lookup, if◌then◌else◌, Bool-cases, Option-cases, inl, inr,
}
use mella_dashboard.Services.Purchases.{PurchaseRow, Sales}
use mella_dashboard.Services.Purchases.Initiation.{
  InitiateInput, has_key, find_by_key, first_purchase, initiate_purchase,
}
use mella_dashboard.Services.Purchases.Keeping.{
  attempts, entries, Keeps, Keeps-attempts, attempts-entries, resume-Keeps,
}
use mella_dashboard.Services.Purchases.Adding.{
  is_call_of, first-adds, none-counted, HasSingleAttempts, call-none, call-some,
}
use mathlib.Core.Option.{some-injective}

-- The numbers of the purchases, newest first, go down from below a bound.
abbrev pub IsDescending : ℕ → List (ℕ × Option ℕ) → Type 0
IsDescending bound [] = Unit
IsDescending bound (e ∷ es) = (suc e.0 ≤ bound) × IsDescending e.0 es

found-below :
    (key id bound : ℕ) (p : PurchaseRow) (ps : List (ℕ × PurchaseRow))
    → IsDescending bound (entries ps)
    → find_by_key key ps ≡ some (id, p)
    → suc id ≤ bound
unfolding find_by_key entries
found-below key id bound p [] d h = cc
found-below key id bound p (row ∷ ps) (l, d) h = elim (Bool-cases (has_key key row.1)) [
  | inl m ↦
      let own : row ≡ (id, p) = some-injective _ _ (sym (rw m refl) ∙ h) in
      rw (ap (λ r. r.0) own) at l
  | inr m ↦
      let below = found-below key id row.0 p ps d (sym (rw m refl) ∙ h) in omega (arith, below, l)
]

-- A purchase that is found by its key is the one with its number.
found-stored :
    (key id bound : ℕ) (p : PurchaseRow) (ps : List (ℕ × PurchaseRow))
    → IsDescending bound (entries ps)
    → find_by_key key ps ≡ some (id, p)
    → lookup id ps ≡ some p
unfolding find_by_key entries lookup
found-stored key id bound p [] d h = cc
found-stored key id bound p (row ∷ ps) (l, d) h = elim (Bool-cases (has_key key row.1)) [
  | inl m ↦
      let own : row ≡ (id, p) = some-injective _ _ (sym (rw m refl) ∙ h) in
      let number = (==_iff row.0 id).1 (ap (λ r. r.0) own) in rw number (ap (λ r. some r.1) own)
  | inr m ↦
      let later : find_by_key key ps ≡ some (id, p) = sym (rw m refl) ∙ h in
      let below = found-below key id row.0 p ps d later in
      let other : (row.0 == id) ≡ false = ground (arith, below) in
      rw other (found-stored key id row.0 p ps d later)
]

-- What holds between the calls: the numbers go down, and no key has two purchases.
pub record IsReady (s : Sales) : Type 0 where
  pub numbered : IsDescending s.next_purchase (entries s.purchases)
  pub single : HasSingleAttempts s

Keeps-IsReady : (s t : Sales) → Keeps s t → IsReady s → IsReady t
Keeps-IsReady s t k h = record {
  numbered = rw (k.0, k.1) h.numbered;
  single = λ key. rw (Keeps-attempts key s t k) (h.single key);
}

added-attempts :
    (key : ℕ) (i : InitiateInput) (s t : Sales)
    → entries t.purchases ≡ (s.next_purchase, i.idempotency_key) ∷ entries s.purchases
    → attempts key t ≡ (if is_call_of key i then 1 else 0) + attempts key s
added-attempts key i s t e =
    attempts-entries key t
    ∙ ap (count_if (λ (e : ℕ × Option ℕ). elim e.1 [ none ↦ false | some k ↦ k == key ])) e
    ∙ ap (λ n. (if is_call_of key i then 1 else 0) + n) (sym (attempts-entries key s))

-- A new purchase whose key, if it has one, no purchase has yet.
added-IsReady :
    (i : InitiateInput) (s t : Sales)
    → entries t.purchases ≡ (s.next_purchase, i.idempotency_key) ∷ entries s.purchases
    → t.next_purchase ≡ suc s.next_purchase
    → ((k : ℕ) → i.idempotency_key ≡ some k → attempts k s ≡ 0)
    → IsReady s
    → IsReady t
added-IsReady i s t e n none_yet h = record {
  numbered = rw (e, n) (omega arith, h.numbered);
  single = λ key.
      let old = h.single key in
      let now_counted = added-attempts key i s t e in
      elim (Option-cases i.idempotency_key) [
        | inl a ↦ ground (arith, now_counted, call-none key i a, old)
        | inr (k, a) ↦ elim (Bool-cases (k == key)) [
          | inl m ↦
              let free : attempts key s ≡ 0 = rw ((==_iff k key).0 m) at (none_yet k a) in
              ground (arith, now_counted, free, old)
          | inr m ↦ ground (arith, now_counted, call-some key k i a, m, old)
        ]
      ];
}

first-IsReady :
    (now tx_ref : ℕ) (opens : Bool) (i : InitiateInput) (s : Sales)
    → ((k : ℕ) → i.idempotency_key ≡ some k → attempts k s ≡ 0)
    → IsReady s
    → IsReady (first_purchase now tx_ref opens i s).1
first-IsReady now tx_ref opens i s none_yet h = elim (first-adds now tx_ref opens i s) [
  | inl k ↦ Keeps-IsReady s _ k h
  | inr (e, n) ↦ added-IsReady i s _ e n none_yet h
]

initiate-IsReady :
    (now tx_ref : ℕ) (opens : Bool) (i : InitiateInput) (s : Sales)
    → IsReady s
    → IsReady (initiate_purchase now tx_ref opens i s).1
unfolding initiate_purchase
initiate-IsReady now tx_ref opens i s h = elim (Option-cases i.idempotency_key) [
  | inl n ↦
      rw (n, initiate_purchase)
        (first-IsReady now tx_ref opens i s (λ k e. let clash : none ≡ some k = sym n ∙ e in cc) h)
  | inr (key, n) ↦ elim (Option-cases (find_by_key key s.purchases)) [
    | inr ((id, p), f) ↦
        let stored = found-stored key id s.next_purchase p s.purchases h.numbered f in
        rw (n, initiate_purchase)
          (rw (f, initiate_purchase) (Keeps-IsReady s _ (resume-Keeps now opens i id p s stored) h))
    | inl f ↦
        rw (n, initiate_purchase)
          (rw (f, initiate_purchase)
            (first-IsReady now tx_ref opens i s
              (λ k e.
                let same = some-injective _ _ (sym n ∙ e) in rw same at (none-counted key s f))
              h))
  ]
]

-- What happens over time: a call of `initiateChapaPurchase` with its time, its reference, whether Chapa
-- opens a checkout, and the input; or any other change of the tables.
pub data Event : Type 0 where
  initiates : ℕ → ℕ → Bool → InitiateInput → Event
  changes : (Sales → Sales) → Event

unfoldable pub run : List Event → Sales → Sales
run [] s = s
run (initiates now tx_ref opens i ∷ es) s = run es (initiate_purchase now tx_ref opens i s).1
run (changes f ∷ es) s = run es (f s)

-- The other changes insert no purchase, and leave the numbers and the keys of those that are there.
abbrev pub IsOther : Event → Type 0
IsOther (initiates now tx_ref opens i) = Unit
IsOther (changes f) = (s : Sales) → Keeps s (f s)

run-IsReady : (es : List Event) (s : Sales) → All IsOther es → IsReady s → IsReady (run es s)
unfolding run
run-IsReady [] s k h = h
run-IsReady (initiates now tx_ref opens i ∷ es) s (u, k) h =
    run-IsReady es _ k (initiate-IsReady now tx_ref opens i s h)
run-IsReady (changes f ∷ es) s (u, k) h = run-IsReady es _ k (Keeps-IsReady s (f s) (u s) h)

-- However often calls are repeated with one idempotency key, whatever the coupons and the payment
-- provider answer, and whatever happens in between that inserts no purchase and leaves the numbers and
-- the keys: there is never more than one purchase for a key.
pub initiate_purchase-single :
    (es : List Event) (s : Sales)
    → All IsOther es
    → IsDescending s.next_purchase (entries s.purchases)
    → HasSingleAttempts s
    → HasSingleAttempts (run es s)
initiate_purchase-single es s k numbered single =
    (run-IsReady es s k (record { numbered = numbered; single = single })).single
