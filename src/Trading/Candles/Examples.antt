-- ===== src/Trading/Candles/Examples.antt =====
-- A restart after three ticks of one symbol, the last of them in the next minute.
use mella_dashboard.Base.{
  ℕ, ◌+◌, ◌≡◌, refl, none, some, List, [], ◌∷◌, ◌++◌, inl, inr, arith, lookup, insert,
}
use mella_dashboard.Trading.Router.Symbol.{Tick}
use mella_dashboard.Trading.Candles.{
  tick_price, CandleBuilder, timeframes, restore, current, on_tick, bucket_start, tick_bar,
  closed_bar, new_bar, merge_into,
}
use mella_dashboard.Trading.Candles.Restart.{run, Ascending, option_list, restore-run}
use mella_dashboard.Trading.Candles.Restart.Loop.{Once}

abbrev quote : ℕ → ℕ → Tick
quote at price = record { symbol = 7; bid = price; ask = price + 200_000; ts = at; source = 1 }

abbrev ticks : List Tick
ticks = quote 1_000 11_000_000_000 ∷ quote 30_000 11_002_000_000 ∷ quote 61_000 10_999_000_000 ∷ []

abbrev empty : CandleBuilder
empty = record { bars = []; digits = (7, 5) ∷ [] }

abbrev built : CandleBuilder
built = (run timeframes ticks empty []).0

-- The 5m bar of the stream, at the mid prices.
five_minutes :
    current 7 300 built
    ≡ some (record {
      time = 0;
      open_price = 11_000_100_000;
      high = 11_002_100_000;
      low = 10_999_100_000;
      close = 10_999_100_000;
      volume = 3;
    })
unfolding tick_price run current on_tick tick_bar closed_bar new_bar merge_into bucket_start lookup
    insert
five_minutes = refl

no_bars : lookup 7 empty.bars ≡ none
unfolding lookup
no_bars = refl

ordered : Ascending 7 0 ticks
ordered = omega arith

minute : Once 60 timeframes
minute = inl (refl, (refl, (refl, (refl, (refl, (refl, tt))))))

restore-run_example :
    current 7 300 (
      restore timeframes 7
        ((run timeframes ticks empty []).1 ++ option_list (current 7 60 built))
        empty)
    ≡ current 7 300 built
restore-run_example =
    restore-run timeframes minute 7 5 ticks empty empty ordered no_bars no_bars
      (inr (refl, inl (refl, (refl, (refl, (refl, (refl, tt)))))))
