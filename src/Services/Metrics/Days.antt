-- ===== src/Services/Metrics/Days.antt =====
-- The trading days of src/lib/services/accountMetrics.ts: what grouping by day keeps.
use mathlib.Core.Path.{subst}
use mella_dashboard.Base.{
  ==_iff, +ℤ_assoc, +ℤ_comm, ℕ, ◌<◌, ◌≡◌, ltb, List, [], ◌∷◌, All, arith, ◌+ℤ◌, Bool-cases, inl,
  inr, ◌==◌, refl, ap, sym, ◌∙◌,
}
use mella_dashboard.Money.{Amount}
use mella_dashboard.Services.Reset.{ResetTime}
use mella_dashboard.Services.Store.{Trade}
use mella_dashboard.Services.Metrics.{sum_of, add_to_day, group_by_day}

-- Groups in the order of their days, each day once.
abbrev pub Ascending : List (ℕ × Amount) → Type 0
Ascending [] = Unit
Ascending (g ∷ gs) = All (λ h. g.0 < h.0) gs × Ascending gs

abbrev group_total : List (ℕ × Amount) → Amount
group_total gs = sum_of (λ g. g.1) gs

swap_first : (a b c : Amount) → a +ℤ (b +ℤ c) ≡ b +ℤ (a +ℤ c)
swap_first a b c = +ℤ_assoc a b c ∙ ap (λ t. t +ℤ c) (+ℤ_comm a b) ∙ sym (+ℤ_assoc b a c)

add_to_day-total :
    (day : ℕ) (v : Amount) (gs : List (ℕ × Amount))
    → group_total (add_to_day day v gs) ≡ v +ℤ group_total gs
unfolding add_to_day
add_to_day-total day v [] = refl
add_to_day-total day v (g ∷ gs) = elim (Bool-cases (day == g.0)) [
  | inl e ↦ rw e (sym (+ℤ_assoc v g.1 (group_total gs)))
  | inr n ↦ rw n (elim (Bool-cases (ltb day g.0)) [
    | inl l ↦ rw l refl
    | inr m ↦
        rw m (ap (λ t. g.1 +ℤ t) (add_to_day-total day v gs) ∙ swap_first g.1 v (group_total gs))
  ])
]

add_to_day-above :
    (low day : ℕ) (v : Amount) (gs : List (ℕ × Amount))
    → low < day
    → All (λ h. low < h.0) gs
    → All (λ h. low < h.0) (add_to_day day v gs)
unfolding add_to_day
add_to_day-above low day v [] l h = (l, tt)
add_to_day-above low day v (g ∷ gs) l h = ground (arith, add_to_day-above low day v gs l h.1)

above_trans :
    (low high : ℕ) (gs : List (ℕ × Amount))
    → low < high
    → All (λ h. high < h.0) gs
    → All (λ h. low < h.0) gs
above_trans low high [] l h = tt
above_trans low high (g ∷ gs) l h = (omega arith, above_trans low high gs l h.1)

add_to_day-Ascending :
    (day : ℕ) (v : Amount) (gs : List (ℕ × Amount)) → Ascending gs → Ascending (add_to_day day v gs)
unfolding add_to_day
add_to_day-Ascending day v [] h = (tt, tt)
add_to_day-Ascending day v (g ∷ gs) h = elim (Bool-cases (day == g.0)) [
  | inl e ↦ rw e (subst (λ d. All (λ k. d < k.0) gs) (sym ((==_iff day g.0).0 e)) h.0, h.1)
  | inr n ↦ rw n (elim (Bool-cases (ltb day g.0)) [
    | inl l ↦ rw l ((ground arith, above_trans day g.0 gs (ground arith) h.0), h)
    | inr m ↦
        rw m (add_to_day-above g.0 day v gs (ground arith) h.0, add_to_day-Ascending day v gs h.1)
  ])
]

-- The days of an account's trades stand in ascending order, each once, and their net profits sum to
-- the net profit of all the trades.
pub group_by_day_lem :
    (r : ResetTime) (trades : List Trade)
    → Ascending (group_by_day r trades)
      × (group_total (group_by_day r trades) ≡ sum_of (λ t. t.net_profit) trades)
unfolding group_by_day
group_by_day_lem r [] = (tt, refl)
group_by_day_lem r (t ∷ ts) =
    let before = group_by_day_lem r ts in
    (
      add_to_day-Ascending _ _ _ before.0,
      add_to_day-total _ t.net_profit _ ∙ ap (λ v. t.net_profit +ℤ v) before.1,
    )
