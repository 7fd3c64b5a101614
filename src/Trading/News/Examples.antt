-- ===== src/Trading/News/Examples.antt =====
-- A news release on an instrument.
use mella_dashboard.Base.{◌≡◌, ◌-ℤ◌, refl, ◌∷◌, [], some, List}
use mella_dashboard.Trading.News.{NewsEvent, Currencies, window_of, active_news_window}

-- Two releases of one currency a minute apart, and one of another currency.
abbrev releases : List NewsEvent
releases =
    record { id = 1; currency = 7; scheduled_at = 600_000 }
    ∷ record { id = 2; currency = 7; scheduled_at = 660_000 }
    ∷ record { id = 3; currency = 9; scheduled_at = 720_000 }
    ∷ []

abbrev instrument : Currencies
instrument = record { base = 5; quote = 7 }

-- The later of the two covers the instant too, and is the one that is found.
second_release :
    active_news_window releases instrument 610_000 120_000
    ≡ some (window_of (record { id = 2; currency = 7; scheduled_at = 660_000 }) 120_000)
unfolding active_news_window ◌-ℤ◌
second_release = refl
