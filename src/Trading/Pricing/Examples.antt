-- ===== src/Trading/Pricing/Examples.antt =====
-- The pricing theorems at concrete quotes. 10^10 units make one unit of the quote currency.
use mella_dashboard.Base.{◌↔◌, ◌≤ℤ◌, ◌≡◌, pos, true, some, none, refl}
use mella_dashboard.Trading.Pricing.{
  buy, sell, limit, Quote, finite, check_stops, validate_stops, fill_price, stop_loss,
  pending_triggered, VolumeRules, validate_volume,
}
use mella_dashboard.Trading.Pricing.Stops.{wire, IsInSpread, stop_inside_spread}

abbrev euro : Quote
euro = record { bid = pos 10_850_000_000; ask = pos 10_852_000_000 }

fires : check_stops sell euro (some (pos 10_851_000_000)) none ≡ some stop_loss
unfolding check_stops
fires = refl

stop_inside_spread_example :
    ((validate_stops sell (fill_price sell euro) (wire (some (pos 10_851_000_000))) none ≡ none)
      × (check_stops sell euro (some (pos 10_851_000_000)) none ≡ some stop_loss))
    ↔ ((pos 1 ≤ℤ pos 10_851_000_000) × IsInSpread sell euro (pos 10_851_000_000))
stop_inside_spread_example = stop_inside_spread sell euro (pos 10_851_000_000)

triggers : pending_triggered buy limit (pos 10_860_000_000) euro ≡ true
unfolding pending_triggered
triggers = refl

-- 0.01 to 50 lots in steps of 0.05.
abbrev lots : VolumeRules
lots = record { min_volume = 100_000_000; max_volume = 500_000_000_000; volume_step = 500_000_000 }

odd_lot : validate_volume (finite (pos 1_500_000_003)) lots ≡ none
unfolding validate_volume
odd_lot = refl
