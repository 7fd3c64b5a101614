-- ===== src/Trading/Router/Invariant.antt =====
-- The hysteresis of a symbol over time: ticks and checks at times that do not go back.
use mella_dashboard.Base.{
  ℕ, ◌+◌, ◌≤◌, ◌<◌, ◌≡◌, ◌≢◌, Option, none, some, List, [], ◌∷◌, ◌++◌, arith,
}
use mella_dashboard.Trading.Router.Symbol.{
  Source, Tick, Options, SymbolState, evaluate_symbol, note_tick, ingest_symbol, FeedSwitchEvent,
  primary_recovered, Outcome,
}
use mella_dashboard.Trading.Router.Symbol.Forwarding.{IsRouted}

-- What the worker does to a symbol.
pub data Act : Type 0 where
  tick : Source → Tick → Act
  check : Act

abbrev pub act : Options → SymbolState → ℕ → Act → Outcome
act o st now (tick source t) = (ingest_symbol o st now source t).0
act o st now check = evaluate_symbol o st now

abbrev NotBefore : ℕ → Option ℕ → Type 0
NotBefore t none = Unit {0}
NotBefore t (some h) = t ≤ h

-- While a symbol is on its backup, the run of the primary that counts began after the failover.
pub record IsSettled (now : ℕ) (st : SymbolState) : Type 0 where
  pub routed : IsRouted st
  pub switched : st.active_since ≤ now
  pub counted : st.active ≢ st.route.primary → NotBefore st.active_since st.primary_healthy_since

-- The events of one action, after a switch at `t`: at most one, at the new `activeSince`, and a planned
-- failback no sooner than the stable period after `t`.
abbrev pub SpacedStep : ℕ → ℕ → List FeedSwitchEvent → ℕ → Type 0
SpacedStep stable t [] t' = t' ≡ t
SpacedStep stable t (e ∷ []) t' = (e.at ≡ t') × (e.reason ≡ primary_recovered → t + stable ≤ e.at)
SpacedStep stable t (e ∷ f ∷ es) t' = ⊥

evaluate-IsSettled :
    (o : Options) (st : SymbolState) (now : ℕ)
    → IsSettled now st
    → 0 < o.stable_ms
    → let r = evaluate_symbol o st now in
      IsSettled now r.state × SpacedStep o.stable_ms st.active_since r.events r.state.active_since
unfolding evaluate_symbol
evaluate-IsSettled o st now v p = ground arith

note-IsSettled :
    (o : Options) (st : SymbolState) (now : ℕ) (source : Source) (t : Tick)
    → IsSettled now st
    → let st' = note_tick o st now source t in
      IsSettled now st' × (st'.active_since ≡ st.active_since)
unfolding note_tick
note-IsSettled o st now source t v = ground arith

act-IsSettled :
    (o : Options) (st : SymbolState) (now : ℕ) (a : Act)
    → IsSettled now st
    → 0 < o.stable_ms
    → let r = act o st now a in
      IsSettled now r.state × SpacedStep o.stable_ms st.active_since r.events r.state.active_since
unfolding ingest_symbol
act-IsSettled o st now check v p = evaluate-IsSettled o st now v p
act-IsSettled o st now (tick source t) v p =
    let (w, e) = note-IsSettled o st now source t v in
    let after = evaluate-IsSettled o (note_tick o st now source t) now w p in
    ground (arith, after, e)

-- A sequence of actions, each with its time, that do not go back behind `t`.
abbrev pub IsTimed : ℕ → List (ℕ × Act) → Type 0
IsTimed t [] = Unit {0}
IsTimed t ((now, a) ∷ acts) = (t ≤ now) × IsTimed now acts

-- The state after the actions, and all switch events, in order.
pub run : Options → SymbolState → List (ℕ × Act) → SymbolState × List FeedSwitchEvent
run o st [] = (st, [])
run o st ((now, a) ∷ acts) =
    let r = act o st now a in let (st', log) = run o r.state acts in (st', r.events ++ log)

-- Each planned failback in a log comes no sooner than the stable period after the event before it, or
-- after `t`.
abbrev pub Spaced : ℕ → ℕ → List FeedSwitchEvent → Type 0
Spaced stable t [] = Unit {0}
Spaced stable t (e ∷ es) =
    (e.reason ≡ primary_recovered → t + stable ≤ e.at) × Spaced stable e.at es

Spaced-append :
    (stable t t' : ℕ) (es log : List FeedSwitchEvent)
    → SpacedStep stable t es t'
    → Spaced stable t' log
    → Spaced stable t (es ++ log)
Spaced-append stable t t' [] log s r = rw (← s) r
Spaced-append stable t t' (e ∷ []) log s r = (s.1, rw s.0 r)
Spaced-append stable t t' (e ∷ f ∷ es) log s r = elim s [ ]

later : (st : SymbolState) (t now : ℕ) → t ≤ now → IsSettled t st → IsSettled now st
later st t now h v = record { routed = v.routed; switched = omega arith; counted = v.counted }

-- However the feeds tick and the timer runs, a planned failback comes no sooner than the stable
-- period after the switch before it: a flapping primary cannot take the stream back.
pub run-Spaced :
    (o : Options) (st : SymbolState) (t : ℕ) (acts : List (ℕ × Act))
    → 0 < o.stable_ms
    → IsSettled t st
    → IsTimed t acts
    → Spaced o.stable_ms st.active_since (run o st acts).1
unfolding run
run-Spaced o st t [] p v h = tt
run-Spaced o st t ((now, a) ∷ acts) p v (h, hs) =
    let r = act o st now a in
    let (w, s) = act-IsSettled o st now a (later st t now h v) p in
    Spaced-append o.stable_ms st.active_since r.state.active_since r.events (run o r.state acts).1 s
      (run-Spaced o r.state now acts p w hs)
