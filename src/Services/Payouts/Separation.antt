-- ===== src/Services/Payouts/Separation.antt =====
-- The people behind one payout: who may not be the same person, and what a decision keeps of it.
use mella_dashboard.Base.{
  ℕ, ◌≡◌, ◌⊎◌, refl, Bool, true, false, not, ◌&&◌, Option, none, some, arith, inr,
}
use mella_dashboard.Services.Payouts.{pending, approved, paid, rejected, Payout, is_pending}
use mella_dashboard.Services.Payouts.Deciding.{
  Decision, is_actor, claims, decision_refusal, decided,
}

-- Someone is named, who is not the other.
abbrev pub is_named_apart : Option ℕ → Option ℕ → Bool
is_named_apart none other = false
is_named_apart (some a) other = not (is_actor other a)

-- The people behind a payout, by its status: an approver is not the requester, and whoever marks it
-- paid is neither of them.
unfoldable pub is_separated : Payout → Bool
is_separated p = elim p.status [
  | pending ↦ true
  | rejected ↦ true
  | approved ↦ is_named_apart p.approved_by p.created_by
  | paid ↦
      is_named_apart p.approved_by p.created_by
      && is_named_apart p.paid_by p.created_by
      && is_named_apart p.paid_by p.approved_by
]

-- A row follows an earlier read of it: the requester is the same, and an approval is never taken back
-- or replaced.
pub record Follows (r p : Payout) : Type 0 where
  same_creator : p.created_by ≡ r.created_by
  not_back : (is_pending r.status ≡ true) ⊎ (is_pending p.status ≡ false)
  same_approver : (is_pending r.status ≡ true) ⊎ (p.approved_by ≡ r.approved_by)

pub Follows-refl : (p : Payout) → Follows p p
Follows-refl p = record { same_creator = refl; not_back = ground arith; same_approver = inr refl }

-- A decision that is allowed on a read row keeps the people apart, and its new row follows the old.
pub decided-keeps :
    (now actor : ℕ) (v : Decision) (r p : Payout)
    → decision_refusal v actor r ≡ none
    → claims v p.status ≡ true
    → Follows r p
    → is_separated p ≡ true
    → is_separated (decided v actor now p) ≡ true
unfolding decided decision_refusal is_separated
decided-keeps now actor v r p allowed c f s =
    ground (arith, f.same_creator, f.not_back, f.same_approver)

pub decided-Follows :
    (now actor : ℕ) (v : Decision) (r p : Payout)
    → claims v p.status ≡ true
    → Follows r p
    → Follows r (decided v actor now p)
unfolding decided
decided-Follows now actor v r p c f = record {
  same_creator = ground (arith, f.same_creator);
  not_back = ground (arith, f.not_back);
  same_approver = ground (arith, f.same_approver, f.not_back);
}
