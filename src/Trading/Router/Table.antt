-- ===== src/Trading/Router/Table.antt =====
-- The whole router: `setRoutes`, `ingest`, `evaluate`, `activeSource` and the switch history.
pub mod Routes
use mella_dashboard.Base.{
  ℕ, ◌-◌, Bool, true, false, not, ◌&&◌, Option, none, some, List, [], ◌∷◌, ◌++◌, leb, ltb, ◌==◌,
  length, if◌then◌else◌, lookup, insert, keep, any,
}
use mella_dashboard.Trading.Router.Symbol.{
  Source, Tick, FeedRoute, FeedSwitchEvent, Options, Latest, SymbolState, Outcome, evaluate_symbol,
  ingest_symbol, is_source, is_fresh, at_of,
}

pub record FeedRouter : Type 0 where
  pub symbols : List (ℕ × SymbolState)
  pub history : List FeedSwitchEvent

-- `{ …, backup: r.backup && r.backup !== r.primary ? r.backup : null }`.
abbrev pub effective_backup : Source → Option Source → Option Source
effective_backup primary none = none
effective_backup primary (some b) = if b == primary then none else some b

unfoldable pub normalize_route : FeedRoute → FeedRoute
normalize_route r = record {
  symbol = r.symbol;
  primary = r.primary;
  backup = effective_backup r.primary r.backup;
}

abbrev pub same_source : Option Source → Option Source → Bool
same_source none none = true
same_source (some a) (some b) = a == b
same_source _ _ = false

abbrev pub latest_of : Option SymbolState → List (Source × Latest)
latest_of none = []
latest_of (some st) = st.last

abbrev pub switches_of : Option SymbolState → ℕ
switches_of none = 0
switches_of (some st) = st.switches

abbrev pub healthy_from : Options → ℕ → Option ℕ → Option ℕ
healthy_from o now at = if is_fresh o now at then at else none

-- A route that is new or has changed starts over on its primary, with the ticks that it still needs.
unfoldable pub fresh_state : Options → ℕ → FeedRoute → Option SymbolState → SymbolState
fresh_state o now route existing =
    let last =
      keep (λ entry. if entry.0 == route.primary then true else is_source entry.0 route.backup)
        (latest_of existing) in
    record {
      route = route;
      active = route.primary;
      active_since = now;
      since = now;
      last = last;
      primary_healthy_since = healthy_from o now (at_of (lookup route.primary last));
      switches = switches_of existing;
      failback_due_bucket = none;
    }

abbrev pub unchanged : FeedRoute → Option SymbolState → Bool
unchanged route none = false
unchanged route (some st) =
    st.route.primary == route.primary && same_source st.route.backup route.backup

unfoldable pub set_route : Options → ℕ → FeedRoute → List (ℕ × SymbolState) → List (ℕ × SymbolState)
unfolding fresh_state
set_route o now route symbols =
    let existing = lookup route.symbol symbols in
    if unchanged route existing
    then symbols
    else insert route.symbol (fresh_state o now route existing) symbols

-- The loop of `setRoutes`.
unfoldable pub install :
    Options → ℕ → List FeedRoute → List (ℕ × SymbolState) → List (ℕ × SymbolState)
install o now [] symbols = symbols
install o now (r ∷ rs) symbols = install o now rs (set_route o now (normalize_route r) symbols)

unfoldable pub set_routes : Options → ℕ → List FeedRoute → FeedRouter → FeedRouter
unfolding install
set_routes o now routes router = record router {
  symbols =
      keep (λ entry. any (λ (r : FeedRoute). r.symbol == entry.0) routes)
        (install o now routes router.symbols);
}

abbrev tail_of : List FeedSwitchEvent → List FeedSwitchEvent
tail_of [] = []
tail_of (e ∷ es) = es

-- `history.push(ev)` and the `shift` past the limit, for each event.
unfoldable pub remember : ℕ → List FeedSwitchEvent → List FeedSwitchEvent → List FeedSwitchEvent
remember size history [] = history
remember size history (e ∷ es) =
    let pushed = history ++ (e ∷ []) in
    remember size (if ltb size (length pushed) then tail_of pushed else pushed) es

abbrev pub commit : Options → FeedRouter → ℕ → Outcome → FeedRouter
commit o router symbol r = record {
  symbols = insert symbol r.state router.symbols;
  history = remember o.history_size router.history r.events;
}

unfoldable pub ingest : Options → ℕ → Source → Tick → FeedRouter → FeedRouter × List Tick × Bool
ingest o now source tick router = elim (lookup tick.symbol router.symbols) [
  | none ↦ (router, [], false)
  | some st ↦
      let (r, done) = ingest_symbol o st now source tick in
      (commit o router tick.symbol r, r.forwarded, done)
]

-- The loop of `evaluate`; what is forwarded is collected in order.
evaluate_from : Options → ℕ → List (ℕ × SymbolState) → List FeedSwitchEvent → FeedRouter × List Tick
evaluate_from o now [] history = (record { symbols = []; history = history }, [])
evaluate_from o now ((symbol, st) ∷ rest) history =
    let r = evaluate_symbol o st now in
    let (router, forwarded) = evaluate_from o now rest (remember o.history_size history r.events) in
    (record router { symbols = (symbol, r.state) ∷ router.symbols }, r.forwarded ++ forwarded)

unfoldable pub evaluate : Options → ℕ → FeedRouter → FeedRouter × List Tick
unfolding evaluate_from
evaluate o now router = evaluate_from o now router.symbols router.history

abbrev active_of : Option SymbolState → Option Source
active_of none = none
active_of (some st) = some st.active

unfoldable pub active_source : ℕ → FeedRouter → Option Source
active_source symbol router = active_of (lookup symbol router.symbols)
