-- ===== src/Trading/Router/Examples.antt =====
-- The router at a symbol with a primary feed 1 and a backup 2.
use mella_dashboard.Base.{
  ◌-◌, ◌<◌, ◌≡◌, ◌⊎◌, ◌↔◌, true, false, some, none, List, [], ◌∷◌, refl, inl, inr, arith, lookup,
  insert, ℕ,
}
use mella_dashboard.Trading.Router.Symbol.{
  Tick, FeedRoute, Options, SymbolState, last_at, evaluate_symbol, ingest_symbol, get_or_else,
  FeedSwitchEvent, primary_recovered,
}
use mella_dashboard.Trading.Router.Symbol.Switching.{IsFresh, failover_iff}
use mella_dashboard.Trading.Router.Symbol.Forwarding.{IsRouted}
use mella_dashboard.Trading.Router.Invariant.{Act, tick, check, IsSettled, run, Spaced, run-Spaced}
use mella_dashboard.Trading.Router.Table.{FeedRouter, set_routes}
use mella_dashboard.Trading.Router.Table.Routes.{HasSources, IsFreshState, set_routes_lem}

abbrev options : Options
options = record { stale_ms = 3000; stable_ms = 30_000; failback_align_ms = 0; history_size = 2 }

abbrev euro : FeedRoute
euro = record { symbol = 7; primary = 1; backup = some 2 }

abbrev price : ℕ → Tick
price at = record { symbol = 7; bid = 100; ask = 101; ts = at; source = 1 }

-- Both feeds ticked, the primary long ago.
abbrev quiet_primary : SymbolState
quiet_primary = record {
  route = euro;
  active = 1;
  active_since = 0;
  since = 0;
  last =
      (1, record { at = 1000; tick = price 1000 })
      ∷ (2, record { at = 5000; tick = price 5000 })
      ∷ [];
  primary_healthy_since = some 0;
  switches = 0;
  failback_due_bucket = none;
}

abbrev on_two : SymbolState
on_two = record quiet_primary { active = 2; primary_healthy_since = none }

quiet_primary-IsRouted : IsRouted quiet_primary
quiet_primary-IsRouted = record { distinct = λ e. cc; active_known = inl refl }

failover_iff_example :
    let r = evaluate_symbol options quiet_primary 5500 in
    ((r.state.active ≡ 2) ↔ (
      (3000 < 5500 - get_or_else (last_at quiet_primary 1) 0)
      × IsFresh options 5500 (last_at quiet_primary 2)))
    × ((r.state.active ≡ 2) ⊎ (r.state.active ≡ 1))
failover_iff_example = failover_iff options quiet_primary 5500 2 refl refl (λ e. omega arith)

abbrev by_minute : Options
by_minute = record options { failback_align_ms = 60_000 }

two-IsFresh : IsFresh by_minute 5500 (last_at on_two 2)
unfolding last_at lookup
two-IsFresh = omega arith

handed_over : (ingest_symbol options quiet_primary 5500 2 (price 5500)).1 ≡ true
unfolding ingest_symbol evaluate_symbol lookup insert
handed_over = refl

two-IsRouted : IsRouted on_two
two-IsRouted = record { distinct = λ e. cc; active_known = inr refl }

kept_back : (ingest_symbol options on_two 5500 1 (price 5500)).1 ≡ false
unfolding ingest_symbol evaluate_symbol lookup insert
kept_back = refl

quiet_primary-IsSettled : IsSettled 5000 quiet_primary
quiet_primary-IsSettled = record {
  routed = quiet_primary-IsRouted;
  switched = omega arith;
  counted = λ n. absurd (n refl);
}

-- The failover, then a primary that ticks for half a minute.
abbrev recovery : List (ℕ × Act)
recovery =
    (5500, check) ∷ (6000, tick 1 (price 6000)) ∷ (8000, tick 1 (price 8000)) ∷ (9000, check) ∷ []

run-Spaced_example : Spaced 30_000 0 (run options quiet_primary recovery).1
run-Spaced_example =
    run-Spaced options quiet_primary 5000 recovery (omega arith) quiet_primary-IsSettled
      (omega arith)

abbrev router : FeedRouter
router = record { symbols = (7, on_two) ∷ []; history = [] }

set_routes_lem_example :
    let symbols = (set_routes options 9000 (euro ∷ []) router).symbols in
    ((st : SymbolState)
      → lookup 7 router.symbols ≡ some st
      → HasSources euro st
      → lookup 7 symbols ≡ some st)
    × (((st : SymbolState) → lookup 7 router.symbols ≡ some st → ¬ HasSources euro st)
        → (after : SymbolState) × (lookup 7 symbols ≡ some after) × IsFreshState euro 9000 after)
    × (lookup 8 symbols ≡ none)
set_routes_lem_example = set_routes_lem options 9000 [] euro [] router 8 refl refl refl

abbrev recovered : FeedSwitchEvent
recovered = record {
  symbol = 7;
  from = 2;
  to = 1;
  reason = primary_recovered;
  at = 9000;
  primary_last_tick_at = none;
  backup_last_tick_at = none;
}
