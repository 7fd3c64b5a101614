-- ===== src/Services/Payouts/Finality.antt =====
-- A payout that was paid or rejected is decided for good.
use mella_dashboard.Base.{
  ℕ, ◌≡◌, sym, ap, ◌∙◌, ◌==◌, ==_iff, Bool, true, false, not, ◌||◌, some, arith, lookup,
  lookup-insert, Bool-cases, inl, inr,
}
use mathlib.Core.Option.{some-injective}
use mella_dashboard.Services.Payouts.{PayoutStatus, Payout, Treasury, is_pending, is_approved}
use mella_dashboard.Services.Payouts.Requesting.{create_payout-IsRequested}
use mella_dashboard.Services.Payouts.Outcomes.{decide_read-IsDecided}
use mella_dashboard.Services.Payouts.Deciding.{Decision, claims, decided}
use mella_dashboard.Services.Payouts.Desk.{
  Desk, Step, requests, reads_row, decides, trades, Run, stay, step, IsStart,
}
use mella_dashboard.Services.Payouts.Control.{
  IsControlled, run-IsControlled, start-IsControlled, requested-row, above-other,
}

abbrev pub is_final : PayoutStatus → Bool
is_final s = not (is_pending s || is_approved s)

claims-open : (v : Decision) (s : PayoutStatus) → claims v s ≡ true → is_final s ≡ false
claims-open v s h = ground arith

step-final :
    {d e : Desk} (id : ℕ) (p : Payout)
    → Step d e
    → IsControlled d
    → is_final p.status ≡ true
    → lookup id d.treasury.payouts ≡ some p
    → lookup id e.treasury.payouts ≡ some p
step-final {d} id p (requests now i after k) c f h =
    let r = create_payout-IsRequested now i d.treasury after k in
    let t : Treasury = record d.treasury { db = r.db } in
    let below = (c.rows id p h).0 in
    rw r.written
      (requested-row now id i r.account t ∙ rw (above-other d.treasury.next_payout id below) h)
step-final id p (reads_row session j q k) c f h = h
step-final {d} id p (decides session now j v actor before after k e) c f h =
    let r = decide_read-IsDecided now j v actor before d.treasury after e in
    rw r.written (
      lookup-insert j id (decided v actor now r.row) d.treasury.payouts
      ∙ elim (Bool-cases (j == id)) [
        | inl m ↦
            let same : r.row ≡ p =
              some-injective _ _ (sym r.stored ∙ rw (sym ((==_iff j id).0 m)) at h) in
            let still_open : is_final p.status ≡ false =
              ap (λ q. is_final q.status) (sym same) ∙ claims-open v r.row.status r.claimed in
            cc
        | inr n ↦ rw n h
      ])
step-final id p (trades db) c f h = h

-- Once a payout is paid or rejected, whatever requests and decisions follow, those on rows read before
-- included, its row never changes: it cannot be paid twice, nor paid after a rejection.
pub run-final :
    (d e f : Desk) (id : ℕ) (p : Payout)
    → IsStart d
    → Run d e
    → lookup id e.treasury.payouts ≡ some p
    → is_final p.status ≡ true
    → Run e f
    → lookup id f.treasury.payouts ≡ some p
run-final d e f id p s before h k stay = h
run-final d e f id p s before h k (step {e = g} after last) =
    let c = run-IsControlled after (run-IsControlled before (start-IsControlled d s)) in
    step-final id p last c k (run-final d e g id p s before h k after)
