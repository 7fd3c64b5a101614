-- ===== src/Services/Payouts/Progress.antt =====
-- A pending payout can always be paid by two more people.
use mella_dashboard.Base.{
  ℕ, ◌≡◌, ◌≢◌, refl, ap, ◌∙◌, ==_iff, false, true, none, some, arith, lookup, lookup-insert,
}
use mella_dashboard.Services.Store.{TradingAccount, Db, done}
use mella_dashboard.Services.Payouts.{Payout, Treasury, pending, paid}
use mella_dashboard.Services.Payouts.Outcomes.{after_decision, decide_read-done, settle-pay}
use mella_dashboard.Services.Payouts.Deciding.{
  Decision, approve, pay, is_actor, decision_refusal, claims, decided, settle, write_payment,
  decide_payout,
}

-- A decision on a stored payout, from what makes it succeed.
decide-stored :
    (now id : ℕ) (v : Decision) (actor : ℕ) (p : Payout) (db : Db) (t : Treasury)
    → lookup id t.payouts ≡ some p
    → decision_refusal v actor p ≡ none
    → claims v p.status ≡ true
    → settle v id p t.db ≡ done db
    → let after = after_decision now id v actor p p db t in
      (decide_payout now id v actor t ≡ done after)
      × (lookup id after.payouts ≡ some (decided v actor now p))
unfolding decide_payout
decide-stored now id v actor p db t h allowed c e = (
  rw (h, decide_payout) (decide_read-done now id v actor p p db t allowed h c e),
  lookup-insert id id (decided v actor now p) t.payouts ∙ rw ((==_iff id id).1 refl) refl,
)

-- A pending payout of a stored account is approved by anyone who is not its requester, and then paid
-- by any third person: the two decisions succeed one after the other, and the payout is paid.
pub pending-paid :
    (now later id approver payer : ℕ) (p : Payout) (a : TradingAccount) (t : Treasury)
    → lookup id t.payouts ≡ some p
    → p.status ≡ pending
    → lookup p.account_id t.db.accounts ≡ some a
    → is_actor p.created_by approver ≡ false
    → is_actor p.created_by payer ≡ false
    → approver ≢ payer
    → (half whole : Treasury) × (q : Payout) × (decide_payout now id approve approver t ≡ done half)
      × (decide_payout later id pay payer half ≡ done whole)
      × (lookup id whole.payouts ≡ some q)
      × (q.status ≡ paid)
      × (q.paid_by ≡ some payer)
unfolding decision_refusal settle decided
pending-paid now later id approver payer p a t h s stored first second apart =
    let q = decided approve approver now p in
    let half = after_decision now id approve approver p p t.db t in
    let step =
      decide-stored now id approve approver p t.db t h (rw (first, s) refl) (ap (claims approve) s)
        refl in
    let last =
      decide-stored later id pay payer q (write_payment id q a half.db) half step.1
        (rw second (ground arith)) refl (settle-pay id q a half.db stored) in
    (
      half,
      after_decision later id pay payer q q (write_payment id q a half.db) half,
      decided pay payer later q,
      step.0,
      last.0,
      last.1,
      refl,
      refl,
    )
