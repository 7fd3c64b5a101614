-- ===== src/Trading/Candles.antt =====
-- src/trading/candles.ts. A price is a number of 10^-10 of the quote currency, a timeframe its length
-- in seconds, and an instant or a bar's time a number of milliseconds.
pub mod Aggregation
pub mod Restart
mod Examples
use mella_dashboard.Base.{
  ◌&&◌, ℕ, suc, ◌+◌, ◌*◌, ◌/◌, ltb, ◌==◌, Bool, Option, none, some, List, [], ◌∷◌, ◌++◌,
  if◌then◌else◌, lookup, insert,
}
use mathlib.Core.List.{reverse}
use mella_dashboard.Money.{round_half_up}
use mella_dashboard.Trading.Pricing.{point}
use mella_dashboard.Trading.Router.Symbol.{Tick}

abbrev pub Timeframe : Type 0
Timeframe = ℕ

-- `TIMEFRAMES`: 1m, 5m, 15m, 1h, 4h and 1d.
abbrev pub timeframes : List Timeframe
timeframes = 60 ∷ 300 ∷ 900 ∷ 3600 ∷ 14_400 ∷ 86_400 ∷ []

pub record Bar : Type 0 where
  pub time : ℕ
  pub open_price : ℕ
  pub high : ℕ
  pub low : ℕ
  pub close : ℕ
  pub volume : ℕ

unfoldable pub bucket_start : ℕ → Timeframe → ℕ
bucket_start ts tf = ts / (tf * 1000) * (tf * 1000)

unfoldable pub new_bar : ℕ → ℕ → Bar
new_bar time price = record {
  time = time;
  open_price = price;
  high = price;
  low = price;
  close = price;
  volume = 1;
}

-- `mergeInto`, with a volume of 1.
unfoldable pub merge_into : Bar → ℕ → Bar
merge_into bar price = record bar {
  high = if ltb bar.high price then price else bar.high;
  low = if ltb price bar.low then price else bar.low;
  close = price;
  volume = bar.volume + 1;
}

-- One bar into the last of the output, and one that starts a new bar there.
unfoldable pub combine : Bar → Bar → Bar
combine last b = record last {
  high = if ltb last.high b.high then b.high else last.high;
  low = if ltb b.low last.low then b.low else last.low;
  close = b.close;
  volume = last.volume + b.volume;
}

unfoldable pub start_bar : Timeframe → Bar → Bar
start_bar tf b = record b { time = bucket_start b.time tf }

-- A bar on top of the output of `aggregateBars`, whose last element stands first here.
unfoldable pub add_bar : Timeframe → Bar → List Bar → List Bar
add_bar tf b [] = start_bar tf b ∷ []
add_bar tf b (last ∷ more) =
    if last.time == bucket_start b.time tf
    then combine last b ∷ more
    else start_bar tf b ∷ last ∷ more

unfoldable pub aggregate_onto : Timeframe → List Bar → List Bar → List Bar
unfolding add_bar
aggregate_onto tf out [] = out
aggregate_onto tf out (b ∷ bars) = aggregate_onto tf (add_bar tf b out) bars

unfoldable pub aggregate_bars : Timeframe → List Bar → List Bar
unfolding aggregate_onto
aggregate_bars tf bars = reverse (aggregate_onto tf [] bars)

-- `bars` and `digits` of the class, by symbol; a symbol's bars by timeframe.
pub record CandleBuilder : Type 0 where
  pub bars : List (ℕ × List (Timeframe × Bar))
  pub digits : List (ℕ × ℕ)

abbrev pub get_or_else {ℓ} : {A : Type ℓ} → Option A → A → A
get_or_else none d = d
get_or_else (some a) d = a

unfoldable pub set_digits : ℕ → ℕ → CandleBuilder → CandleBuilder
set_digits symbol digits builder = record builder { digits = insert symbol digits builder.digits }

-- `Array.sort` by time: a stable sort.
unfoldable pub insert_by_time : Bar → List Bar → List Bar
insert_by_time b [] = b ∷ []
insert_by_time b (c ∷ cs) =
    let later = c ∷ insert_by_time b cs in if ltb c.time b.time then later else b ∷ c ∷ cs

unfoldable pub sort_by_time : List Bar → List Bar
unfolding insert_by_time
sort_by_time [] = []
sort_by_time (b ∷ bs) = insert_by_time b (sort_by_time bs)

abbrev pub head? {ℓ} : {A : Type ℓ} → List A → Option A
head? [] = none
head? (x ∷ xs) = some x

-- The last bar of each timeframe, where there is one.
unfoldable pub restored :
    List Timeframe → List Bar → List (Timeframe × Bar) → List (Timeframe × Bar)
unfolding aggregate_onto
restored [] sorted map = map
restored (tf ∷ tfs) sorted map =
    restored tfs sorted
      (elim (head? (aggregate_onto tf [] sorted)) [ none ↦ map | some last ↦ insert tf last map ])

unfoldable pub restore : List Timeframe → ℕ → List Bar → CandleBuilder → CandleBuilder
unfolding restored sort_by_time
restore tfs symbol [] builder = builder
restore tfs symbol (b ∷ bs) builder = record builder {
  bars = insert symbol (restored tfs (sort_by_time (b ∷ bs)) []) builder.bars;
}

-- The bars of a symbol, none at first.
abbrev pub bars_of : ℕ → CandleBuilder → List (Timeframe × Bar)
bars_of symbol builder = get_or_else (lookup symbol builder.bars) []

unfoldable pub current : ℕ → Timeframe → CandleBuilder → Option Bar
current symbol tf builder = lookup tf (bars_of symbol builder)

pub record BarEvent : Type 0 where
  pub symbol : ℕ
  pub tf : Timeframe
  pub bar : Bar

-- The bar that a tick leaves for a timeframe; `none` for a tick from before the current bar.
unfoldable pub tick_bar : Timeframe → ℕ → ℕ → Option Bar → Option Bar
tick_bar tf ts price none = some (new_bar (bucket_start ts tf) price)
tick_bar tf ts price (some cur) =
    if cur.time == bucket_start ts tf
    then some (merge_into cur price)
    else if ltb (bucket_start ts tf) cur.time
    then none
    else some (new_bar (bucket_start ts tf) price)

-- The 1m bar that a tick closes: the current one, if the tick opens another.
unfoldable pub closed_bar : Timeframe → ℕ → Option Bar → Option Bar
closed_bar tf ts none = none
closed_bar tf ts (some cur) =
    if tf == 60 && ltb cur.time (bucket_start ts tf) then some cur else none

pub record Applied : Type 0 where
  pub map : List (Timeframe × Bar)
  pub updated : List BarEvent
  pub closed1m : Option Bar

-- The loop of `onTick`; a timeframe that the tick closes overwrites what an earlier one closed.
unfoldable pub apply_tick : List Timeframe → ℕ → ℕ → ℕ → Applied → Applied
unfolding tick_bar closed_bar
apply_tick [] symbol ts price done = done
apply_tick (tf ∷ tfs) symbol ts price done =
    let cur = lookup tf done.map in
    apply_tick tfs symbol ts price (elim (tick_bar tf ts price cur) [
      | none ↦ done
      | some bar ↦ record {
        map = insert tf bar done.map;
        updated = done.updated ++ record { symbol = symbol; tf = tf; bar = bar } ∷ [];
        closed1m = elim (closed_bar tf ts cur) [ none ↦ done.closed1m | some closed ↦ some closed ];
      }
    ])

-- The mid price, rounded to the digits of the symbol.
unfoldable pub tick_price : Tick → CandleBuilder → ℕ
unfolding round_half_up point
tick_price tick builder =
    let unit = point (get_or_else (lookup tick.symbol builder.digits) 5) in
    round_half_up (tick.bid + tick.ask) (2 * unit) * unit

unfoldable pub on_tick : List Timeframe → Tick → CandleBuilder → CandleBuilder × Applied
unfolding apply_tick
on_tick tfs tick builder =
    let applied =
      apply_tick tfs tick.symbol tick.ts (tick_price tick builder)
        (record { map = bars_of tick.symbol builder; updated = []; closed1m = none }) in
    (record builder { bars = insert tick.symbol applied.map builder.bars }, applied)
