-- ===== src/Trading/Fx/Examples.antt =====
-- A converter with one rate and one mid.
use mella_dashboard.Base.{◌+◌, ◌≡◌, refl, [], some, none, lookup, insert}
use mella_dashboard.Trading.Pricing.{Rate}
use mella_dashboard.Trading.Fx.{Crosses, Converter, set_usd_rate, update_mid, rate}

abbrev crosses : Crosses
crosses = record { direct = λ q. 100 + q; inverse = λ q. 200 + q }

abbrev empty : Converter
empty = record { account_currency = 9; usd_to_account = none; mids = [] }

abbrev birr : Rate
birr = record { num = 125; den = 1 }

-- 150 yen for a dollar.
abbrev yen : Rate
yen = record { num = 150; den = 1 }

abbrev loaded : Converter
loaded = update_mid 204 yen (set_usd_rate birr empty)

-- A yen is 125 / 150 birr.
yen_rate : rate crosses 4 loaded ≡ some (record { num = 125; den = 150 })
unfolding rate update_mid set_usd_rate lookup insert
yen_rate = refl
