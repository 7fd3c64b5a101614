-- ===== src/Trading/Router/Symbol/Forwarding.antt =====
-- What a tick does to the stream of its symbol.
use mella_dashboard.Base.{
  ℕ, ◌≡◌, ◌≢◌, ◌⊎◌, true, false, some, [], ◌∷◌, arith, lookup, lookup-insert, if◌then◌else◌, ◌==◌,
}
use mella_dashboard.Trading.Router.Symbol.{
  Source, Tick, Options, SymbolState, evaluate_symbol, note_tick, ingest_symbol, hand_over,
}

-- The route has a backup other than its primary, if any, and the active source is one of the two.
pub record IsRouted (st : SymbolState) : Type 0 where
  pub distinct : st.route.backup ≢ some st.route.primary
  pub active_known : (st.active ≡ st.route.primary) ⊎ (st.route.backup ≡ some st.active)

-- An evaluation leaves the ticks and the route as they are, keeps the active source one of the two,
-- and forwards the latest tick of a source that it switches to, while fresh, and nothing else.
pub evaluate_symbol_lem :
    (o : Options) (st : SymbolState) (now : ℕ)
    → IsRouted st
    → let r = evaluate_symbol o st now in
      IsRouted r.state
      × (r.state.last ≡ st.last)
      × (r.state.route ≡ st.route)
      × (r.forwarded ≡ (
          if r.state.active == st.active
          then []
          else hand_over o now (lookup r.state.active st.last)))
unfolding evaluate_symbol
evaluate_symbol_lem o st now v = ground arith

note_tick-IsRouted :
    (o : Options) (st : SymbolState) (now : ℕ) (source : Source) (tick : Tick)
    → IsRouted st
    → IsRouted (note_tick o st now source tick)
unfolding note_tick
note_tick-IsRouted o st now source tick v = ground arith

-- A tick that `ingest` reports as forwarded is the one tick that the listeners receive in that call,
-- though a switch may have handed it over already.
pub ingest_symbol-true :
    (o : Options) (st : SymbolState) (now : ℕ) (source : Source) (tick : Tick)
    → IsRouted st
    → (ingest_symbol o st now source tick).1 ≡ true
    → (ingest_symbol o st now source tick).0.forwarded ≡ tick ∷ []
unfolding ingest_symbol
ingest_symbol-true o st now source tick v h =
    let st' = note_tick o st now source tick in
    ground (
      arith,
      evaluate_symbol_lem o st' now (note_tick-IsRouted o st now source tick v),
      lookup-insert source source (record { at = now; tick = tick }) st.last,
    )

-- When `ingest` reports that the tick is not forwarded, the listeners receive nothing, or, after a
-- switch, the latest tick of another source, while it is fresh.
pub ingest_symbol-false :
    (o : Options) (st : SymbolState) (now : ℕ) (source : Source) (tick : Tick)
    → IsRouted st
    → (ingest_symbol o st now source tick).1 ≡ false
    → let r = (ingest_symbol o st now source tick).0 in
      (r.forwarded ≡ [])
      ⊎ ((r.state.active ≢ source)
          × (r.state.active ≢ st.active)
          × (r.forwarded ≡ hand_over o now (lookup r.state.active st.last)))
unfolding ingest_symbol
ingest_symbol-false o st now source tick v h =
    let st' = note_tick o st now source tick in
    let active = (evaluate_symbol o st' now).state.active in
    ground (
      arith,
      evaluate_symbol_lem o st' now (note_tick-IsRouted o st now source tick v),
      lookup-insert source active (record { at = now; tick = tick }) st.last,
    )
