-- ===== src/Trading/Engine/Market/Freshness.antt =====
-- Halts and stale prices, src/trading/engine.ts.
use mella_dashboard.Base.{
  ℕ, ◌≡◌, Bool, true, false, not, ◌||◌, some, List, [], ◌∷◌, keep, map, lookup, Bool-cases, inl,
  inr, arith, refl, lookup-insert, ==_iff, ◌∙◌,
}
use native.Mathlib.Decide.{ℕ_discrete}
use mella_dashboard.Trading.Router.Symbol.{Tick}
use mella_dashboard.Trading.Fx.{Crosses}
use mella_dashboard.Trading.Engine.{Instrument}
use mella_dashboard.Trading.Engine.Market.{
  Sessions, Market, Engine, is_old, is_stale, has, update_market_state, fresh_quote, receive,
  with_tick, on_tick, quote_of,
}

has-keep :
    (symbol : ℕ) (test : ℕ → Bool) (symbols : List ℕ)
    → test symbol ≡ false
    → has symbol (keep test symbols) ≡ false
has-keep symbol test [] h = refl
has-keep symbol test (s ∷ ss) h = elim (ℕ_discrete s symbol) [
  | yes e ↦ rw e (ground (arith, h, has-keep symbol test ss h))
  | no n ↦ ground (arith, n, has-keep symbol test ss h)
]

receive-lookup :
    (now : ℕ) (tick : Tick) (inst : Instrument) (m : Market)
    → lookup tick.symbol (receive now tick inst m).quotes ≡ some (quote_of now tick inst)
unfolding receive
receive-lookup now tick inst m =
    lookup-insert tick.symbol tick.symbol (quote_of now tick inst) m.quotes
    ∙ rw ((==_iff tick.symbol tick.symbol).1 refl) refl

receive-is_stale :
    (now : ℕ) (tick : Tick) (inst : Instrument) (m : Market)
    → is_stale now (receive now tick inst m) tick.symbol ≡ false
unfolding is_stale is_old quote_of
receive-is_stale now tick inst m = rw (receive-lookup now tick inst m) (ground arith)

update_market_state-lookup :
    (now symbol : ℕ) (m : Market)
    → lookup symbol (update_market_state now m).quotes ≡ lookup symbol m.quotes
unfolding update_market_state
update_market_state-lookup now symbol m = refl

updated-fresh :
    (now : ℕ) (tick : Tick) (inst : Instrument) (m : Market)
    → m.manual_halt ≡ false
    → let n = update_market_state now (receive now tick inst m) in
      (n.is_open ≡ true) × (has tick.symbol n.stale ≡ false)
unfolding update_market_state receive is_old
updated-fresh now tick inst m h = (
  ground (arith, h),
  has-keep tick.symbol (is_stale now (receive now tick inst m)) (map (λ i. i.0) m.instruments)
      (receive-is_stale now tick inst m),
)

with_tick-lookup :
    (now : ℕ) (tick : Tick) (inst : Instrument) (m : Market)
    → lookup tick.symbol (with_tick now tick inst m).quotes ≡ some (quote_of now tick inst)
unfolding with_tick
with_tick-lookup now tick inst m = elim (Bool-cases (not m.is_open || has tick.symbol m.stale)) [
  | inl e ↦ rw e (
      update_market_state-lookup now tick.symbol (receive now tick inst m)
      ∙ receive-lookup now tick inst m)
  | inr e ↦ rw e (receive-lookup now tick inst m)
]

-- Without a manual halt, the market is open, and the symbol of the price is not stale.
with_tick-fresh :
    (now : ℕ) (tick : Tick) (inst : Instrument) (m : Market)
    → m.manual_halt ≡ false
    → ((with_tick now tick inst m).is_open ≡ true)
      × (has tick.symbol (with_tick now tick inst m).stale ≡ false)
unfolding with_tick receive
with_tick-fresh now tick inst m h = elim (Bool-cases (not m.is_open || has tick.symbol m.stale)) [
  | inl e ↦ rw e (updated-fresh now tick inst m h)
  | inr e ↦ rw e (ground arith)
]

on_tick-market :
    (s : Sessions) (x : Crosses) (now : ℕ) (tick : Tick) (inst : Instrument) (e : Engine)
    → lookup tick.symbol e.market.instruments ≡ some inst
    → (on_tick s x now tick e).market ≡ with_tick now tick inst e.market
unfolding on_tick
on_tick-market s x now tick inst e k = rw (on_tick, k) refl

-- Unless the market is halted by hand, a price of a known instrument ends any halt and makes its
-- symbol fresh: the very quote that it brought, with the markup, is the one that orders get.
pub on_tick-fresh_quote :
    (s : Sessions) (x : Crosses) (now : ℕ) (tick : Tick) (inst : Instrument) (e : Engine)
    → e.market.manual_halt ≡ false
    → lookup tick.symbol e.market.instruments ≡ some inst
    → let m = (on_tick s x now tick e).market in
      (m.is_open ≡ true) × (fresh_quote tick.symbol m ≡ some (quote_of now tick inst))
unfolding fresh_quote
on_tick-fresh_quote s x now tick inst e h k = rw (on_tick-market s x now tick inst e k) (
  (with_tick-fresh now tick inst e.market h).0,
  rw ((with_tick-fresh now tick inst e.market h).0, (with_tick-fresh now tick inst e.market h).1)
      (with_tick-lookup now tick inst e.market),
)
