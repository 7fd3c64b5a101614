-- ===== src/Money/Examples.antt =====
-- Runs of the rounding.
use mella_dashboard.Base.{◌≡◌, refl, negsuc}
use mella_dashboard.Money.{round_currency}

half_cent_loss : round_currency (negsuc 4_999) ≡ negsuc 9_999
unfolding round_currency
half_cent_loss = refl
