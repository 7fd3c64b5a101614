-- ===== src/Challenge/Consistency/Bounds.antt =====
-- What an account that passes the consistency rule can have earned on one day.
use mella_dashboard.Base.{
  ◌+◌, ◌*◌, ◌≤◌, ◌≡◌, pos, negsuc, pos_part, ◌≤ℤ◌, max_ℤ, true, some, List, [], ◌∷◌, All, arith,
}
use mella_dashboard.Money.{Amount, Percent, round_currency, round_percent_of}
use mella_dashboard.Money.Rounding.{round_currency_mono}
use mella_dashboard.Challenge.Consistency.{max_from, sum_from, consistency_check}

le-max_from : (m : Amount) (vs : List Amount) → m ≤ℤ max_from m vs
unfolding max_from
le-max_from m [] = omega arith
le-max_from m (v ∷ vs) = ground (arith, le-max_from (max_ℤ m v) vs)

All-max_from : (m : Amount) (vs : List Amount) → All (λ v. v ≤ℤ max_from m vs) vs
unfolding max_from
All-max_from m [] = tt
All-max_from m (v ∷ vs) = (ground (arith, le-max_from (max_ℤ m v) vs), All-max_from (max_ℤ m v) vs)

share :
    (best total : Amount) (n : Percent)
    → pos 0 ≤ℤ n
    → pos 0 ≤ℤ total
    → best ≤ℤ round_percent_of total n
    → pos_part best * 10_000 ≤ pos_part total * pos_part n + 50_000_000
unfolding round_percent_of
share best (pos t) (pos n) h k l = ground arith
share best (negsuc t) n h k l = absurd (omega arith)
share best (pos t) (negsuc n) h k l = absurd (omega arith)

All-share :
    (vs : List Amount) (total : Amount) (p : Percent)
    → pos 0 ≤ℤ p
    → pos 0 ≤ℤ total
    → (m : Amount) → round_currency m ≤ℤ round_percent_of total p
    → All (λ v. v ≤ℤ m) vs
    → All (λ v. pos_part (round_currency v) * 10_000 ≤ pos_part total * pos_part p + 50_000_000) vs
All-share [] total p hp ht m h a = tt
All-share (v ∷ vs) total p hp ht m h (a, as') = (
  share (round_currency v) total p hp ht
      (let e : round_currency v ≤ℤ round_currency m = round_currency_mono v m a in omega arith),
  All-share vs total p hp ht m h as',
)

-- If the rule is on and satisfied, the total is positive, and no single day's rounded profit is more
-- than the limit's percentage of the rounded total, up to half a cent.
pub consistency_check_bounds :
    (days : List Amount) (p : Percent)
    → pos 1 ≤ℤ p
    → (consistency_check days (some p)).ok ≡ true
    → let r = consistency_check days (some p) in
      (pos 1 ≤ℤ r.total)
      × All
          (λ v. pos_part (round_currency v) * 10_000 ≤ pos_part r.total * pos_part p + 50_000_000)
          days
unfolding consistency_check
consistency_check_bounds days p hp h =
    let total = round_currency (sum_from (pos 0) days) in
    let best = max_from (pos 0) days in
    let facts : (pos 1 ≤ℤ total) × (round_currency best ≤ℤ round_percent_of total p) =
      ground arith in
    (
      facts.0,
      All-share days total p (omega arith) (omega (arith, facts.0)) best facts.1
          (All-max_from (pos 0) days),
    )
