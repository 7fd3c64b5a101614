-- ===== src/Services/Payouts/Control.antt =====
-- Maker and checker: the people behind a payout, over any interleaving of requests and decisions.
use mella_dashboard.Base.{
  ℕ, suc, ◌<◌, ◌≡◌, ◌≢◌, refl, sym, ap, ◌∙◌, ◌==◌, ==_iff, true, false, ◌&&◌, Option, none, some,
  [], arith, lookup, insert, lookup-insert, if◌then◌else◌, Bool-cases, inl, inr,
}
use mathlib.Core.Path.{subst}
use mathlib.Core.Option.{some-injective}
use mella_dashboard.Services.Store.{Db, TradingAccount}
use mella_dashboard.Services.Payouts.{
  paid, Payout, Treasury, PayoutInput, write_request, requested_payout,
}
use mella_dashboard.Services.Payouts.Requesting.{create_payout-IsRequested}
use mella_dashboard.Services.Payouts.Desk.{
  Desk, Step, requests, reads_row, decides, trades, Run, stay, step, IsStart,
}
use mella_dashboard.Services.Payouts.Outcomes.{IsDecided, decide_read-IsDecided, after_decision}
use mella_dashboard.Services.Payouts.Deciding.{Decision, claims, decided}
use mella_dashboard.Services.Payouts.Separation.{
  decided-keeps, decided-Follows, is_named_apart, is_separated, Follows, Follows-refl,
}

-- What the steps keep.
pub record IsControlled (d : Desk) : Type 0 where
  pub rows :
      (id : ℕ) (p : Payout)
      → lookup id d.treasury.payouts ≡ some p
      → (id < d.treasury.next_payout) × (is_separated p ≡ true)
  pub seen :
      (session id : ℕ) (r : Payout)
      → lookup session d.reads ≡ some (id, r)
      → (p : Payout) × (lookup id d.treasury.payouts ≡ some p) × Follows r p

pub requested-row :
    (now id : ℕ) (i : PayoutInput) (a : TradingAccount) (t : Treasury)
    → lookup id (write_request now i a t).payouts
      ≡ (if t.next_payout == id then some (requested_payout now i a) else lookup id t.payouts)
unfolding write_request lookup
requested-row now id i a t = refl

requested-next :
    (now : ℕ) (i : PayoutInput) (a : TradingAccount) (t : Treasury)
    → (write_request now i a t).next_payout ≡ suc t.next_payout
unfolding write_request
requested-next now i a t = refl

new_separated :
    (now : ℕ) (i : PayoutInput) (a : TradingAccount)
    → is_separated (requested_payout now i a) ≡ true
unfolding is_separated requested_payout
new_separated now i a = refl

pub above-other : (n id : ℕ) → id < n → (n == id) ≡ false
above-other n id h = ground arith

request-IsControlled :
    (now : ℕ) (i : PayoutInput) (a : TradingAccount) (db : Db) (d : Desk)
    → IsControlled d
    → IsControlled (record d { treasury = write_request now i a (record d.treasury { db = db }) })
request-IsControlled now i a db d c =
    let t : Treasury = record d.treasury { db = db } in
    let new = requested_payout now i a in
    record {
      rows = λ id p h.
          let row = sym (requested-row now id i a t) ∙ h in
          elim (Bool-cases (t.next_payout == id)) [
            | inl e ↦
                let same : some new ≡ some p = sym (rw e refl) ∙ row in
                (
                  rw (requested-next now i a t) (omega (arith, (==_iff t.next_payout id).0 e)),
                  rw (sym (some-injective _ _ same)) (new_separated now i a),
                )
            | inr n ↦
                let same : lookup id t.payouts ≡ some p = sym (rw n refl) ∙ row in
                let (below, separated) = c.rows id p same in
                (rw (requested-next now i a t) (omega arith), separated)
          ];
      seen = λ session id r h.
          let (p, stored, follows) = c.seen session id r h in
          let below = (c.rows id p stored).0 in
          (p, requested-row now id i a t ∙ rw (above-other t.next_payout id below) stored, follows);
    }

decide-IsControlled :
    (session now id : ℕ) (v : Decision) (actor : ℕ) (before : Payout) (d : Desk) (after : Treasury)
    → IsControlled d
    → lookup session d.reads ≡ some (id, before)
    → IsDecided now id v actor before d.treasury after
    → IsControlled (record d { treasury = after })
decide-IsControlled session now id v actor before d after c h k =
    let (p, stored, follows) = c.seen session id before h in
    let next = decided v actor now p in
    let same_row : k.row ≡ p = some-injective _ _ (sym k.stored ∙ stored) in
    let claimed : claims v p.status ≡ true =
      ap (λ q. claims v q.status) (sym same_row) ∙ k.claimed in
    let (below, apart) = c.rows id p stored in
    let t = after_decision now id v actor before p k.db d.treasury in
    let written : after ≡ t =
      k.written ∙ ap (λ q. after_decision now id v actor before q k.db d.treasury) same_row in
    rw written (record {
      rows = λ j q e.
          let row = sym (lookup-insert id j next d.treasury.payouts) ∙ e in
          elim (Bool-cases (id == j)) [
            | inl m ↦
                let same : some next ≡ some q = sym (rw m refl) ∙ row in
                (
                  omega (arith, (==_iff id j).0 m),
                  rw (sym (some-injective _ _ same))
                      (decided-keeps now actor v before p k.allowed claimed follows apart),
                )
            | inr n ↦ c.rows j q (sym (rw n refl) ∙ row)
          ];
      seen = λ other j r e.
          let (q, row, after_read) = c.seen other j r e in
          elim (Bool-cases (id == j)) [
            | inl m ↦
                let same : p ≡ q =
                  some-injective _ _ (sym stored ∙ rw (sym ((==_iff id j).0 m)) at row) in
                (
                  next,
                  lookup-insert id j next d.treasury.payouts ∙ rw m refl,
                  decided-Follows now actor v r p claimed (rw (sym same) at after_read),
                )
            | inr n ↦ (q, lookup-insert id j next d.treasury.payouts ∙ rw n row, after_read)
          ];
    })

read-IsControlled :
    (session id : ℕ) (p : Payout) (d : Desk)
    → IsControlled d
    → lookup id d.treasury.payouts ≡ some p
    → IsControlled (record d { reads = insert session (id, p) d.reads })
read-IsControlled session id p d c h = record {
  rows = c.rows;
  seen = λ other j r e.
      let row = sym (lookup-insert session other (id, p) d.reads) ∙ e in
      elim (Bool-cases (session == other)) [
        | inl m ↦
            let same = some-injective _ _ (sym (rw m refl) ∙ row) in
            (
              p,
              ap (λ k. lookup k d.treasury.payouts) (sym (ap (λ x. x.0) same)) ∙ h,
              subst (λ x. Follows x p) (ap (λ x. x.1) same) (Follows-refl p),
            )
        | inr n ↦ c.seen other j r (sym (rw n refl) ∙ row)
      ];
}

pub step-IsControlled : {d e : Desk} → Step d e → IsControlled d → IsControlled e
step-IsControlled {d} (requests now i after k) c =
    let r = create_payout-IsRequested now i d.treasury after k in
    rw r.written (request-IsControlled now i r.account r.db d c)
step-IsControlled {d} (reads_row session id p h) c = read-IsControlled session id p d c h
step-IsControlled {d} (decides session now id v actor before after h k) c =
    decide-IsControlled session now id v actor before d after c h
      (decide_read-IsDecided now id v actor before d.treasury after k)
step-IsControlled (trades db) c = record { rows = c.rows; seen = c.seen }

pub start-IsControlled : (d : Desk) → IsStart d → IsControlled d
unfolding lookup
start-IsControlled d (p, r) = record {
  rows = λ id q h. let clash : lookup id [] ≡ some q = rw p at h in cc;
  seen = λ s id q h. let clash : lookup s [] ≡ some (id, q) = rw r at h in cc;
}

pub run-IsControlled : {d e : Desk} → Run d e → IsControlled d → IsControlled e
run-IsControlled stay c = c
run-IsControlled (step run s) c = step-IsControlled s (run-IsControlled run c)

named_apart :
    (o other : Option ℕ) → is_named_apart o other ≡ true → (a : ℕ) × (o ≡ some a) × (other ≢ some a)
named_apart none other h = cc
named_apart (some a) none h = (a, refl, (λ e. cc))
named_apart (some a) (some b) h =
    (a, refl, (λ e. let same : b ≡ a = some-injective b a e in ground arith))

-- However requests, reads, decisions and other changes of the database interleave, decisions on rows
-- read long before included: a payout that is paid was approved by someone who is not its requester,
-- and marked paid by someone who is neither of the two.
pub run-separated :
    (d e : Desk) (id : ℕ) (p : Payout)
    → IsStart d
    → Run d e
    → lookup id e.treasury.payouts ≡ some p
    → p.status ≡ paid
    → (a b : ℕ) × (p.approved_by ≡ some a)
      × (p.paid_by ≡ some b)
      × (a ≢ b)
      × (p.created_by ≢ some a)
      × (p.created_by ≢ some b)
unfolding is_separated
run-separated d e id p s run h k =
    let apart = ((run-IsControlled run (start-IsControlled d s)).rows id p h).1 in
    let all : is_named_apart p.approved_by p.created_by
          && is_named_apart p.paid_by p.created_by
          && is_named_apart p.paid_by p.approved_by
        ≡ true =
      rw (k, is_separated) at apart in
    let (a, approver, other) = named_apart p.approved_by p.created_by (ground arith) in
    let (b, payer, another) = named_apart p.paid_by p.created_by (ground arith) in
    let (b2, payer2, third) = named_apart p.paid_by p.approved_by (ground arith) in
    (
      a,
      b,
      approver,
      payer,
      (λ e. third (approver ∙ ap some (e ∙ some-injective _ _ (sym payer ∙ payer2)))),
      other,
      another,
    )
