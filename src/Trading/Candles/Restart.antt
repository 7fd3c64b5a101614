-- ===== src/Trading/Candles/Restart.antt =====
-- A restart of the worker: the bars that `restore` derives from the stored 1m bars are the bars that
-- the ticks had built.
pub mod Loop
mod Stream
use mella_dashboard.Base.{
  ℕ, suc, ◌+◌, ◌*◌, ◌/◌, ◌≤◌, ◌<◌, ◌≡◌, refl, sym, ap, ◌∙◌, ltb, ◌==◌, ==_iff, Bool, true, false,
  Option, none, some, List, [], ◌∷◌, ◌++◌, if◌then◌else◌, arith, Bool-cases, Option-cases, inl, inr,
  lookup, insert, lookup-insert, All, ◌⊎◌,
}
use mathlib.Core.List.{reverse, reverse-append, append-nil}
use mathlib.Core.Path.{subst}
use mella_dashboard.Trading.Router.Symbol.{Tick}
use mella_dashboard.Trading.Candles.{
  Bar, Timeframe, CandleBuilder, bucket_start, new_bar, merge_into, add_bar, aggregate_onto,
  tick_bar, closed_bar, head?, bars_of, current, restore, restored, sort_by_time, on_tick,
  tick_price, Applied, apply_tick, get_or_else,
}
use mella_dashboard.Trading.Candles.Aggregation.{aggregate, push_tick, Follows, tick_bar-push_tick}
use Loop.{Once, apply_tick-once, closed-once, restored-once}
use Stream.{
  Minutes, push_tick-Minutes, push_tick-Follows, Follows-later, aggregate-Minutes,
  aggregate_onto-reverse, sort_by_time-reverse, push_tick-head, aggregate-head,
}

abbrev pub option_list {ℓ} : {A : Type ℓ} → Option A → List A
option_list none = []
option_list (some a) = a ∷ []

-- A stream of ticks, with the 1m bars that it closes, in order: what the worker stores.
unfoldable pub run :
    List Timeframe → List Tick → CandleBuilder → List Bar → CandleBuilder × List Bar
run tfs [] builder stored = (builder, stored)
run tfs (tick ∷ ticks) builder stored =
    let (after, applied) = on_tick tfs tick builder in
    run tfs ticks after (stored ++ option_list applied.closed1m)

-- The ticks of one symbol, none older than the one before it.
abbrev pub Ascending : ℕ → ℕ → List Tick → Type 0
Ascending symbol low [] = Unit
Ascending symbol low (t ∷ ts) = (t.symbol ≡ symbol) × (low ≤ t.ts) × Ascending symbol t.ts ts

abbrev older {ℓ} : {A : Type ℓ} → List A → List A
older [] = []
older (x ∷ xs) = xs

-- The builder and the stored bars after a stream whose 1m bars, newest first, are `ms`.
record Tracks (tfs : List Timeframe) (symbol low : ℕ) (builder : CandleBuilder)
    (stored ms : List Bar) : Type 0 where
  follows : Follows low ms
  minutes : Minutes ms
  kept : stored ≡ reverse (older ms)
  derived :
      (k : ℕ)
      → Once (60 * k) tfs
      → lookup (60 * k) (bars_of symbol builder) ≡ head? (aggregate (60 * k) ms)

on_tick-bars :
    (tfs : List Timeframe) (tick : Tick) (builder : CandleBuilder)
    → bars_of tick.symbol (on_tick tfs tick builder).0 ≡ (on_tick tfs tick builder).1.map
unfolding on_tick
on_tick-bars tfs tick builder =
    rw (lookup-insert tick.symbol tick.symbol (on_tick tfs tick builder).1.map builder.bars)
      (rw ((==_iff tick.symbol tick.symbol).1 refl) refl)

-- What a tick stores is the 1m bar that it leaves behind.
closed_bar-stored :
    (ts price : ℕ) (stored ms : List Bar)
    → Follows ts ms
    → stored ≡ reverse (older ms)
    → stored ++ option_list (closed_bar 60 ts (head? ms)) ≡ reverse (older (push_tick ts price ms))
unfolding closed_bar push_tick
closed_bar-stored ts price stored [] f k = append-nil stored ∙ k
closed_bar-stored ts price stored (m ∷ ms) f k = elim (Bool-cases (m.time == bucket_start ts 60)) [
  | inl e ↦
      let still : ltb m.time (bucket_start ts 60) ≡ false = ground arith in
      rw (e, still) (append-nil stored ∙ k)
  | inr n ↦
      let passed : ltb m.time (bucket_start ts 60) ≡ true = ground arith in
      rw (n, passed) (ap (λ s. s ++ m ∷ []) k ∙ sym (reverse-append (m ∷ []) ms))
]

module _ (tfs : List Timeframe) (minute : Once 60 tfs) where
  on_tick-Tracks :
      (low : ℕ) (tick : Tick) (builder : CandleBuilder) (stored ms : List Bar)
      → low ≤ tick.ts
      → Tracks tfs tick.symbol low builder stored ms
      → Tracks tfs tick.symbol tick.ts
          (on_tick tfs tick builder).0
          (stored ++ option_list (on_tick tfs tick builder).1.closed1m)
          (push_tick tick.ts (tick_price tick builder) ms)
  unfolding on_tick
  on_tick-Tracks low tick builder stored ms l t =
      let price = tick_price tick builder in
      let f = Follows-later low tick.ts ms l t.follows in
      let moved : (k : ℕ)
          → Once (60 * k) tfs
          → (bar : Bar) × (tick_bar (60 * k) tick.ts price
                (lookup (60 * k) (bars_of tick.symbol builder))
              ≡ some bar)
            × (head? (aggregate (60 * k) (push_tick tick.ts price ms)) ≡ some bar) =
        λ k once.
          let (bar, e) = push_tick-head (60 * k) tick.ts price ms in
          (
            bar,
            ap (tick_bar (60 * k) tick.ts price) (t.derived k once)
                ∙ tick_bar-push_tick k tick.ts price ms f
                ∙ e,
            e,
          ) in
      record {
        follows = push_tick-Follows tick.ts price ms f;
        minutes = push_tick-Minutes tick.ts price ms f t.minutes;
        kept =
            let (bar, m, _) = moved 1 minute in
            ap (λ c. stored ++ option_list c)
              (closed-once tick.symbol tick.ts price tfs _ bar minute refl m
                ∙ ap (closed_bar 60 tick.ts)
                    (t.derived 1 minute ∙ ap head? (aggregate-Minutes ms t.minutes)))
            ∙ closed_bar-stored tick.ts price stored ms f t.kept;
        derived = λ k once.
            let (bar, m, e) = moved k once in
            ap (lookup (60 * k)) (on_tick-bars tfs tick builder)
            ∙ apply_tick-once tick.symbol tick.ts price (60 * k) tfs _ bar once m
            ∙ sym e;
      }

  run-Tracks :
      (symbol low : ℕ) (ticks : List Tick) (builder : CandleBuilder) (stored ms : List Bar)
      → Ascending symbol low ticks
      → Tracks tfs symbol low builder stored ms
      → (high : ℕ) × (after : List Bar) × Tracks tfs symbol high
          (run tfs ticks builder stored).0
          (run tfs ticks builder stored).1
          after
  unfolding run
  run-Tracks symbol low [] builder stored ms a t = (low, ms, t)
  run-Tracks symbol low (tick ∷ ticks) builder stored ms a t =
      let own = subst (λ s. Tracks tfs s low builder stored ms) (sym a.0) t in
      let next = on_tick-Tracks low tick builder stored ms a.1 own in
      run-Tracks symbol tick.ts ticks _ _ _ a.2 (
        subst
          (λ s.
            Tracks tfs s tick.ts (on_tick tfs tick builder).0
              (stored ++ option_list (on_tick tfs tick builder).1.closed1m)
              (push_tick tick.ts (tick_price tick builder) ms))
          a.0 next)

  restore-append :
      (symbol : ℕ) (xs : List Bar) (y : Bar) (fresh : CandleBuilder)
      → restore tfs symbol (xs ++ y ∷ []) fresh ≡ record fresh {
        bars = insert symbol (restored tfs (sort_by_time (xs ++ y ∷ [])) []) fresh.bars;
      }
  unfolding restore
  restore-append symbol [] y fresh = refl
  restore-append symbol (x ∷ xs) y fresh = refl

  restore-current :
      (symbol k : ℕ) (ms : List Bar) (fresh : CandleBuilder) (m bar : Bar)
      → Once (60 * k) tfs
      → Minutes (m ∷ ms)
      → head? (aggregate (60 * k) (m ∷ ms)) ≡ some bar
      → current symbol (60 * k) (restore tfs symbol (reverse ms ++ m ∷ []) fresh) ≡ some bar
  unfolding current
  restore-current symbol k ms fresh m bar o i h =
      let sorted : sort_by_time (reverse ms ++ m ∷ []) ≡ reverse (m ∷ ms) =
        ap sort_by_time (sym (reverse-append (m ∷ []) ms)) ∙ sort_by_time-reverse (m ∷ ms) i in
      let last : head? (aggregate_onto (60 * k) [] (sort_by_time (reverse ms ++ m ∷ [])))
          ≡ some bar =
        ap (λ bs. head? (aggregate_onto (60 * k) [] bs)) sorted
        ∙ ap head? (aggregate_onto-reverse (60 * k) (m ∷ ms))
        ∙ h in
      rw (restore-append symbol (reverse ms) m fresh) (
        rw
          (lookup-insert symbol symbol (restored tfs (sort_by_time (reverse ms ++ m ∷ [])) [])
            fresh.bars)
          (rw ((==_iff symbol symbol).1 refl) (restored-once (60 * k) tfs _ [] bar o last)))

  nothing :
      (symbol k : ℕ) (builder : CandleBuilder)
      → lookup symbol builder.bars ≡ none
      → lookup (60 * k) (bars_of symbol builder) ≡ none
  unfolding lookup
  nothing symbol k builder b = rw b refl

  restored-Tracks :
      (symbol high k : ℕ) (after fresh : CandleBuilder) (stored ms : List Bar)
      → Tracks tfs symbol high after stored ms
      → lookup symbol fresh.bars ≡ none
      → Once (60 * k) tfs
      → current symbol
          (60 * k)
          (restore tfs symbol (stored ++ option_list (current symbol 60 after)) fresh)
        ≡ current symbol (60 * k) after
  unfolding current aggregate restore
  restored-Tracks symbol high k after fresh stored [] t f o =
      let inputs : stored ++ option_list (current symbol 60 after) ≡ [] =
        ap (λ s. s ++ option_list (current symbol 60 after)) t.kept
        ∙ ap option_list (t.derived 1 minute) in
      ap (λ bs. current symbol (60 * k) (restore tfs symbol bs fresh)) inputs
      ∙ nothing symbol k fresh f
      ∙ sym (t.derived k o)
  restored-Tracks symbol high k after fresh stored (m ∷ ms) t f o =
      let (bar, e) = aggregate-head (60 * k) m (aggregate (60 * k) ms) in
      let open_minute : current symbol 60 after ≡ some m =
        t.derived 1 minute ∙ ap head? (aggregate-Minutes (m ∷ ms) t.minutes) in
      let inputs : stored ++ option_list (current symbol 60 after) ≡ reverse ms ++ m ∷ [] =
        ap (λ s. s ++ option_list (current symbol 60 after)) t.kept
        ∙ ap (λ c. reverse ms ++ option_list c) open_minute in
      ap (λ bs. current symbol (60 * k) (restore tfs symbol bs fresh)) inputs
      ∙ restore-current symbol k ms fresh m bar o t.minutes e
      ∙ sym (t.derived k o ∙ e)

  -- Take a builder with 1m among its timeframes that knows no bar of a symbol, and ticks of that symbol
  -- in the order of their times. Whatever timeframe of whole minutes it has: the bar that `restore` derives from the 1m bars
  -- that the ticks closed, with the 1m bar that is still open, is the bar that the ticks had built.
  pub restore-run :
      (symbol k : ℕ) (ticks : List Tick) (builder fresh : CandleBuilder)
      → Ascending symbol 0 ticks
      → lookup symbol builder.bars ≡ none
      → lookup symbol fresh.bars ≡ none
      → Once (60 * k) tfs
      → let (after, stored) = run tfs ticks builder [] in
        current symbol
          (60 * k)
          (restore tfs symbol (stored ++ option_list (current symbol 60 after)) fresh)
        ≡ current symbol (60 * k) after
  unfolding aggregate
  restore-run symbol k ticks builder fresh a b f o =
      let start : Tracks tfs symbol 0 builder [] [] = record {
        follows = tt;
        minutes = tt;
        kept = refl;
        derived = λ j _. nothing symbol j builder b;
      } in
      let (high, ms, t) = run-Tracks symbol 0 ticks builder [] [] a start in
      restored-Tracks symbol high k _ fresh _ ms t f o
