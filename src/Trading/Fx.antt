-- ===== src/Trading/Fx.antt =====
-- Conversion to the account currency, the class Converter of src/trading/fx.ts. A currency is the
-- number of its code in capitals, a symbol a number too, and a rate an exact fraction.
pub mod Positive
mod Examples
use mella_dashboard.Base.{
  ℕ, ◌+◌, ◌*◌, ◌==◌, Bool, ◌||◌, Option, none, some, List, lookup, insert, if◌then◌else◌, is_some,
  ◌&&◌, ltb,
}
use mella_dashboard.Trading.Pricing.{Rate}

-- The symbols that `${q}USD` and `USD${q}` spell for a currency.
pub record Crosses : Type 0 where
  pub direct : ℕ → ℕ
  pub inverse : ℕ → ℕ

-- `USD_EQUIVALENTS`: USD, USDT and USDC.
unfoldable pub is_usd : ℕ → Bool
is_usd q = q == 1 || q == 2 || q == 3

pub record Converter : Type 0 where
  pub account_currency : ℕ
  pub usd_to_account : Option Rate
  pub mids : List (ℕ × Rate)

-- A rate that is zero or less is ignored; a fraction of no denominator stands for one that
-- `Number.isFinite` refuses.
abbrev pub is_positive : Rate → Bool
is_positive r = ltb 0 r.num && ltb 0 r.den

unfoldable pub set_usd_rate : Rate → Converter → Converter
set_usd_rate r c = if is_positive r then record c { usd_to_account = some r } else c

unfoldable pub update_mid : ℕ → Rate → Converter → Converter
update_mid symbol mid c =
    if is_positive mid then record c { mids = insert symbol mid c.mids } else c

unfoldable pub quote_to_usd : Crosses → ℕ → Converter → Option Rate
unfolding is_usd
quote_to_usd x q c =
    if is_usd q then some (record { num = 1; den = 1 }) else elim (lookup (x.direct q) c.mids) [
      | some mid ↦ some mid
      | none ↦ elim (lookup (x.inverse q) c.mids) [
        | some mid ↦ some (record { num = mid.den; den = mid.num })
        | none ↦ none
      ]
    ]

-- The product of two rates, none where one is missing.
abbrev pub times : Option Rate → Option Rate → Option Rate
times none s = none
times (some r) none = none
times (some r) (some s) = some (record { num = r.num * s.num; den = r.den * s.den })

unfoldable pub rate : Crosses → ℕ → Converter → Option Rate
unfolding quote_to_usd
rate x q c =
    if q == c.account_currency
    then some (record { num = 1; den = 1 })
    else times (quote_to_usd x q c) c.usd_to_account
