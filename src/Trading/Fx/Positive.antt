-- ===== src/Trading/Fx/Positive.antt =====
-- The rates of src/trading/fx.ts are positive.
use mella_dashboard.Base.{
  ℕ, zero, suc, ◌<◌, ◌*◌, ◌==◌, Option, none, some, [], lookup, ◌≡◌, Bool-cases, inl, inr, arith,
  true, Option-cases, lookup-insert, refl,
}
use mella_dashboard.Trading.Pricing.{Rate}
use mella_dashboard.Trading.Fx.{
  Crosses, Converter, is_positive, set_usd_rate, update_mid, quote_to_usd, times, rate, is_usd,
}

-- Every rate that is there is positive.
abbrev pub IsPositive : Option Rate → Type 0
IsPositive none = Unit
IsPositive (some r) = is_positive r ≡ true

-- The rates that a converter holds.
abbrev pub IsSound : Converter → Type 0
IsSound c = IsPositive c.usd_to_account × ((symbol : ℕ) → IsPositive (lookup symbol c.mids))

-- The converter as the program builds it: a currency, and any rates that are set after that.
pub data Reached (currency : ℕ) : Converter → Type 0 where
  created :
      Reached currency (record { account_currency = currency; usd_to_account = none; mids = [] })
  usd_set : (r : Rate) (c : Converter) → Reached currency c → Reached currency (set_usd_rate r c)
  mid_set :
      (symbol : ℕ) (mid : Rate) (c : Converter)
      → Reached currency c
      → Reached currency (update_mid symbol mid c)

set_usd_rate-IsSound : (r : Rate) (c : Converter) → IsSound c → IsSound (set_usd_rate r c)
unfolding set_usd_rate
set_usd_rate-IsSound r c (u, m) = elim (Bool-cases (is_positive r)) [
  | inl h ↦ rw h (h, m)
  | inr h ↦ rw h (u, m)
]

update_mid-IsSound :
    (symbol : ℕ) (mid : Rate) (c : Converter) → IsSound c → IsSound (update_mid symbol mid c)
unfolding update_mid
update_mid-IsSound symbol mid c (u, m) = elim (Bool-cases (is_positive mid)) [
  | inl h ↦ rw h (
    u,
    λ s. elim (Bool-cases (symbol == s)) [
      | inl e ↦ rw (lookup-insert symbol s mid c.mids, e) h
      | inr e ↦ rw (lookup-insert symbol s mid c.mids, e) (m s)
    ],
  )
  | inr h ↦ rw h (u, m)
]

Reached-IsSound : {currency : ℕ} (c : Converter) → Reached currency c → IsSound c
unfolding lookup
Reached-IsSound c created = (_, λ s. _)
Reached-IsSound c (usd_set r d h) = set_usd_rate-IsSound r d (Reached-IsSound d h)
Reached-IsSound c (mid_set s r d h) = update_mid-IsSound s r d (Reached-IsSound d h)

mul_pos : (a b : ℕ) → 0 < a → 0 < b → 0 < a * b
mul_pos zero b h k = absurd (omega arith)
mul_pos (suc a) zero h k = absurd (omega arith)
mul_pos (suc a) (suc b) h k = omega arith

times-IsPositive : (r s : Option Rate) → IsPositive r → IsPositive s → IsPositive (times r s)
times-IsPositive none s h k = _
times-IsPositive (some r) none h k = _
times-IsPositive (some r) (some s) h k = ground (
  arith,
  mul_pos r.num s.num (ground arith) (ground arith),
  mul_pos r.den s.den (ground arith) (ground arith),
)

inverted :
    (mid : Rate)
    → IsPositive (some mid)
    → IsPositive (some (record { num = mid.den; den = mid.num }))
inverted mid h = ground arith

quote_to_usd-IsPositive :
    (x : Crosses) (q : ℕ) (c : Converter) → IsSound c → IsPositive (quote_to_usd x q c)
unfolding quote_to_usd
quote_to_usd-IsPositive x q c (u, m) = elim (Bool-cases (is_usd q)) [
  | inl e ↦ rw e refl
  | inr e ↦ elim (Option-cases (lookup (x.direct q) c.mids)) [
    | inr (mid, f) ↦ rw (e, f) (rw f at (m (x.direct q)))
    | inl f ↦ elim (Option-cases (lookup (x.inverse q) c.mids)) [
      | inr (mid, g) ↦ rw (e, f, g) (inverted mid (rw g at (m (x.inverse q))))
      | inl g ↦ rw (e, f, g) _
    ]
  ]
]

-- However the rates of a converter were set, every rate that it gives has a positive numerator and a
-- positive denominator.
pub rate-IsPositive :
    (x : Crosses) (q currency : ℕ) (c : Converter) → Reached currency c → IsPositive (rate x q c)
unfolding rate
rate-IsPositive x q currency c h = elim (Bool-cases (q == c.account_currency)) [
  | inl e ↦ rw e refl
  | inr e ↦ rw e (
      times-IsPositive (quote_to_usd x q c) c.usd_to_account
        (quote_to_usd-IsPositive x q c (Reached-IsSound c h)) (Reached-IsSound c h).0)
]
