-- ===== src/Services/Payouts/Outcomes.antt =====
-- What a decision that succeeded had found and written.
use mella_dashboard.Base.{
  ℕ, ◌≡◌, ◌⊎◌, refl, sym, ◌∙◌, true, none, some, [], ◌∷◌, lookup, insert, Bool-cases, Option-cases,
  inl, inr,
}
use mella_dashboard.Services.Store.{
  TradingAccount, Db, Outcome, done, refused, Failure, conflict, payout_decided, told_user,
}
use mella_dashboard.Services.Engine.Transitions.{add_notes}
use mella_dashboard.Services.Payouts.{Payout, Treasury}
use mella_dashboard.Services.Payouts.Deciding.{
  Decision, pay, write_payment, claims, decision_refusal, decided, settle, claim_decision,
  decide_read,
}

pub done-injective {ℓ} : {A : Type ℓ} (x y : A) → done x ≡ done y → x ≡ y
done-injective x y h = cc

pub Outcome-cases {ℓ} :
    {A : Type ℓ} (o : Outcome A) → ((f : Failure) × (o ≡ refused f)) ⊎ ((x : A) × (o ≡ done x))
Outcome-cases (done x) = inr (x, refl)
Outcome-cases (refused f) = inl (f, refl)

-- The tables after a claim.
abbrev pub after_decision : ℕ → ℕ → Decision → ℕ → Payout → Payout → Db → Treasury → Treasury
after_decision now id d actor before p db t = record t {
  db = add_notes (payout_decided id ∷ told_user before.user_id ∷ []) db;
  payouts = insert id (decided d actor now p) t.payouts;
}

pub record IsDecided (now id : ℕ) (d : Decision) (actor : ℕ) (before : Payout) (t after : Treasury)
    : Type 0 where
  pub row : Payout
  pub db : Db
  pub allowed : decision_refusal d actor before ≡ none
  pub stored : lookup id t.payouts ≡ some row
  pub claimed : claims d row.status ≡ true
  pub moved : settle d id before t.db ≡ done db
  pub written : after ≡ after_decision now id d actor before row db t

claim-IsDecided :
    (now id : ℕ) (d : Decision) (actor : ℕ) (before p : Payout) (t after : Treasury)
    → decision_refusal d actor before ≡ none
    → lookup id t.payouts ≡ some p
    → claim_decision now id d actor before t ≡ done after
    → IsDecided now id d actor before t after
unfolding claim_decision
claim-IsDecided now id d actor before p t after allowed h k =
    elim (Bool-cases (claims d p.status)) [
      | inr n ↦
          let clash : refused conflict ≡ done after =
            sym (rw (h, claim_decision) (rw n refl)) ∙ k in
          cc
      | inl c ↦ elim (Outcome-cases (settle d id before t.db)) [
        | inl (f, e) ↦
            let clash : refused f ≡ done after =
              sym (rw (h, claim_decision) (rw c (rw e refl))) ∙ k in
            cc
        | inr (db, e) ↦ record {
          row = p;
          db = db;
          allowed = allowed;
          stored = h;
          claimed = c;
          moved = e;
          written = done-injective _ _ (sym k ∙ rw (h, claim_decision) (rw c (rw e refl)));
        }
      ]
    ]

pub decide_read-IsDecided :
    (now id : ℕ) (d : Decision) (actor : ℕ) (before : Payout) (t after : Treasury)
    → decide_read now id d actor before t ≡ done after
    → IsDecided now id d actor before t after
unfolding decide_read claim_decision
decide_read-IsDecided now id d actor before t after k =
    elim (Option-cases (decision_refusal d actor before)) [
      | inr (f, e) ↦ let clash : refused f ≡ done after = sym (rw (e, decide_read) refl) ∙ k in cc
      | inl allowed ↦ elim (Option-cases (lookup id t.payouts)) [
        | inl h ↦
            let clash : refused conflict ≡ done after =
              sym (rw (allowed, decide_read) (rw (h, claim_decision) refl)) ∙ k in
            cc
        | inr (p, h) ↦
            claim-IsDecided now id d actor before p t after allowed h
              (sym (rw (allowed, decide_read) refl) ∙ k)
      ]
    ]

-- The other way round: what makes a decision succeed.
pub decide_read-done :
    (now id : ℕ) (d : Decision) (actor : ℕ) (before p : Payout) (db : Db) (t : Treasury)
    → decision_refusal d actor before ≡ none
    → lookup id t.payouts ≡ some p
    → claims d p.status ≡ true
    → settle d id before t.db ≡ done db
    → decide_read now id d actor before t ≡ done (after_decision now id d actor before p db t)
unfolding decide_read claim_decision
decide_read-done now id d actor before p db t allowed h c e =
    rw (allowed, decide_read) (rw (h, claim_decision) (rw c (rw e refl)))

pub settle-pay :
    (id : ℕ) (p : Payout) (a : TradingAccount) (db : Db)
    → lookup p.account_id db.accounts ≡ some a
    → settle pay id p db ≡ done (write_payment id p a db)
unfolding settle
settle-pay id p a db h = rw (h, settle) refl
