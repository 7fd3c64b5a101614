-- ===== src/Challenge/Consistency.antt =====
-- `consistencyCheck` of src/lib/services/challengeRules.ts.
pub mod Bounds
use mella_dashboard.Base.{
  ℕ, ◌*◌, ℤ, pos, abs, pos_part, Bool, true, false, ◌&&◌, Option, none, some, List, [], ◌∷◌, ltb_ℤ,
  leb_ℤ, max_ℤ, ◌+ℤ◌, if◌then◌else◌,
}
use mella_dashboard.Money.{Amount, Percent, round_currency, round_percent_of, round_half_up}

pub record ConsistencyResult : Type 0 where
  pub enabled : Bool
  pub ok : Bool
  pub limit_percent : Option Percent
  pub best_day : Amount
  pub total : Amount
  pub ratio_percent : Option Percent

-- `reduce((s, v) => s + v, s)`.
unfoldable pub sum_from : Amount → List Amount → Amount
sum_from s [] = s
sum_from s (v ∷ vs) = sum_from (s +ℤ v) vs

-- `Math.max(m, ...vs)`.
unfoldable pub max_from : Amount → List Amount → Amount
max_from m [] = m
max_from m (v ∷ vs) = max_from (max_ℤ m v) vs

-- A limit that is null, or not positive, is no limit.
abbrev pub positive_limit : Option Percent → Option Percent
positive_limit none = none
positive_limit (some p) = if ltb_ℤ (pos 0) p then some p else none

-- The ratio is in hundredths of a percent.
ratio : Amount → Amount → Option Percent
ratio best total =
    if ltb_ℤ (pos 0) total then some (pos (round_half_up (abs best * 10_000) (abs total))) else none

within : Option Percent → Amount → Amount → Bool
within none best total = true
within (some limit) best total = ltb_ℤ (pos 0) total && leb_ℤ best (round_percent_of total limit)

abbrev is_set : Option Percent → Bool
is_set none = false
is_set (some p) = true

unfoldable pub consistency_check : List Amount → Option Percent → ConsistencyResult
unfolding within ratio
consistency_check daily_net_profits limit_percent =
    let limit = positive_limit limit_percent in
    let total = round_currency (sum_from (pos 0) daily_net_profits) in
    let best_day = round_currency (max_from (pos 0) daily_net_profits) in
    record {
      enabled = is_set limit;
      ok = within limit best_day total;
      limit_percent = limit;
      best_day = best_day;
      total = total;
      ratio_percent = ratio best_day total;
    }
