-- ===== src/Trading/Pricing/Stops.antt =====
-- Stop levels: what `validateStops` accepts and when `checkStops` fires.
use mella_dashboard.Base.{◌≡◌, ◌↔◌, pos, ◌≤ℤ◌, true, Option, none, some, arith, refl, ltb_ℤ}
use mella_dashboard.Trading.Pricing.{
  Price, Side, buy, sell, Quote, JsNumber, finite, check_stops, validate_stops, mark_price,
  fill_price, stop_exit_price, StopTrigger, stop_loss, take_profit,
}

-- A level as it comes over the wire.
abbrev pub wire : Option Price → Option JsNumber
wire none = none
wire (some l) = some (finite l)

abbrev pub IsPositive : Option Price → Type 0
IsPositive none = Unit {0}
IsPositive (some l) = pos 1 ≤ℤ l

-- Levels are accepted at the price that values the position exactly when they are positive and
-- neither of them fires at that very quote.
pub validate_stops_iff :
    (side : Side) (q : Quote) (sl tp : Option Price)
    → (validate_stops side (mark_price side q) (wire sl) (wire tp) ≡ none)
      ↔ (IsPositive sl × IsPositive tp × (check_stops side q sl tp ≡ none))
unfolding validate_stops check_stops
validate_stops_iff buy q sl tp = ground arith
validate_stops_iff sell q sl tp = ground arith

-- How the level that a trigger closes at compares with the price that values the position.
abbrev pub ExitRelation : Side → StopTrigger → Price → Price → Type 0
ExitRelation buy stop_loss mark l = mark ≤ℤ l
ExitRelation buy take_profit mark l = l ≤ℤ mark
ExitRelation sell stop_loss mark l = l ≤ℤ mark
ExitRelation sell take_profit mark l = mark ≤ℤ l

-- A trigger always has a level to close at. A stop-loss closes at a level at least as good for the
-- trader as the market, a take-profit at one no better; and with no trigger neither level is reached.
pub check_stops-exit :
    (side : Side) (q : Quote) (sl tp : Option Price) (t : StopTrigger)
    → check_stops side q sl tp ≡ some t
    → (l : Price) × (stop_exit_price t sl tp ≡ some l) × ExitRelation side t (mark_price side q) l
unfolding check_stops stop_exit_price
check_stops-exit buy q none none t h = cc
check_stops-exit sell q none none t h = cc
check_stops-exit buy q (some l) tp stop_loss h = (l, refl, ground arith)
check_stops-exit buy q sl (some l) take_profit h = (l, refl, ground arith)
check_stops-exit sell q (some l) tp stop_loss h = (l, refl, ground arith)
check_stops-exit sell q sl (some l) take_profit h = (l, refl, ground arith)
check_stops-exit buy q none (some l) stop_loss h = absurd (ground arith)
check_stops-exit buy q (some l) none take_profit h = absurd (ground arith)
check_stops-exit sell q none (some l) stop_loss h = absurd (ground arith)
check_stops-exit sell q (some l) none take_profit h = absurd (ground arith)

-- If both levels are reached by one quote, the stop-loss wins.
pub check_stops-both :
    (side : Side) (q : Quote) (sl tp : Price)
    → ExitRelation side stop_loss (mark_price side q) sl
    → check_stops side q (some sl) (some tp) ≡ some stop_loss
unfolding check_stops
check_stops-both buy q sl tp h = ground arith
check_stops-both sell q sl tp h = ground arith

-- The level lies between the price that the position is valued at and the one it is opened at, the
-- former included.
abbrev pub IsInSpread : Side → Quote → Price → Type 0
IsInSpread buy q l = (q.bid ≤ℤ l) × (ltb_ℤ l q.ask ≡ true)
IsInSpread sell q l = (ltb_ℤ q.bid l ≡ true) × (l ≤ℤ q.ask)

-- On either side: `validateStops` accepts a stop-loss alone at the fill price of a quote, and
-- `checkStops` fires it at that very quote, exactly when it is positive and lies inside the spread, or
-- at its end where the position is valued.
pub stop_inside_spread :
    (side : Side) (q : Quote) (l : Price)
    → ((validate_stops side (fill_price side q) (wire (some l)) none ≡ none)
        × (check_stops side q (some l) none ≡ some stop_loss))
      ↔ ((pos 1 ≤ℤ l) × IsInSpread side q l)
unfolding validate_stops check_stops fill_price
stop_inside_spread buy q l = ground arith
stop_inside_spread sell q l = ground arith
