-- ===== src/Trading/Candles/Restart/Loop.antt =====
-- The loop of `onTick` over the timeframes, read at one of them.
use mella_dashboard.Base.{
  ℕ, ◌≡◌, refl, sym, ap, ◌∙◌, ◌==◌, ==_iff, true, false, Option, none, some, List, [], ◌∷◌,
  Option-cases, inl, inr, lookup, insert, lookup-insert, All, ◌⊎◌,
}
use mathlib.Core.Path.{subst}
use mella_dashboard.Trading.Candles.{
  Bar, Timeframe, tick_bar, closed_bar, Applied, apply_tick, aggregate_onto, restored, head?,
}

-- A timeframe that a list does not hold, and one that it holds once.
abbrev pub Absent : Timeframe → List Timeframe → Type 0
Absent tf tfs = All (λ u. (u == tf) ≡ false) tfs

abbrev pub Once : Timeframe → List Timeframe → Type 0
Once tf [] = ⊥
Once tf (u ∷ us) = (((u == tf) ≡ true) × Absent tf us) ⊎ (((u == tf) ≡ false) × Once tf us)

or_none :
    (o d : Option Bar) → d ≡ none → ◌≡◌ {A = Option Bar} (elim o [ none ↦ d | some b ↦ some b ]) o
or_none none d h = h
or_none (some b) d h = refl

module _ (symbol ts price : ℕ) where
  pub apply_tick-Absent :
      (tf : ℕ) (tfs : List Timeframe) (done : Applied)
      → Absent tf tfs
      → lookup tf (apply_tick tfs symbol ts price done).map ≡ lookup tf done.map
  unfolding apply_tick
  apply_tick-Absent tf [] done a = refl
  apply_tick-Absent tf (u ∷ us) done a =
      elim (Option-cases (tick_bar u ts price (lookup u done.map))) [
        | inl e ↦ rw (e, apply_tick) (apply_tick-Absent tf us done a.1)
        | inr (bar, e) ↦
            rw (e, apply_tick)
              (apply_tick-Absent tf us _ a.1 ∙ lookup-insert u tf bar done.map ∙ rw a.0 refl)
      ]

  -- A timeframe that is held once takes its new bar.
  pub apply_tick-once :
      (tf : ℕ) (tfs : List Timeframe) (done : Applied) (bar : Bar)
      → Once tf tfs
      → tick_bar tf ts price (lookup tf done.map) ≡ some bar
      → lookup tf (apply_tick tfs symbol ts price done).map ≡ some bar
  unfolding apply_tick
  apply_tick-once tf [] done bar o t = absurd o
  apply_tick-once tf (u ∷ us) done bar (inl (e, a)) t =
      let own : tick_bar u ts price (lookup u done.map) ≡ some bar =
        subst (λ v. tick_bar v ts price (lookup v done.map) ≡ some bar) (sym ((==_iff u tf).0 e))
          t in
      rw (own, apply_tick)
        (apply_tick-Absent tf us _ a ∙ lookup-insert u tf bar done.map ∙ rw e refl)
  apply_tick-once tf (u ∷ us) done bar (inr (n, o)) t =
      elim (Option-cases (tick_bar u ts price (lookup u done.map))) [
        | inl e ↦ rw (e, apply_tick) (apply_tick-once tf us done bar o t)
        | inr (other, e) ↦
            rw (e, apply_tick)
              (apply_tick-once tf us _ bar o (rw (lookup-insert u tf other done.map, n) t))
      ]

  closed_bar-other :
      (u : Timeframe) (cur : Option Bar) → (u == 60) ≡ false → closed_bar u ts cur ≡ none
  unfolding closed_bar
  closed_bar-other u none n = refl
  closed_bar-other u (some cur) n = rw n refl

  closed-Absent :
      (tfs : List Timeframe) (done : Applied)
      → Absent 60 tfs
      → (apply_tick tfs symbol ts price done).closed1m ≡ done.closed1m
  unfolding apply_tick
  closed-Absent [] done a = refl
  closed-Absent (u ∷ us) done a = elim (Option-cases (tick_bar u ts price (lookup u done.map))) [
    | inl e ↦ rw (e, apply_tick) (closed-Absent us done a.1)
    | inr (bar, e) ↦
        rw (e, apply_tick)
          (closed-Absent us _ a.1 ∙ rw (closed_bar-other u (lookup u done.map) a.0) refl)
  ]

  -- What the loop closes is the 1m bar that the tick moves on from.
  pub closed-once :
      (tfs : List Timeframe) (done : Applied) (bar : Bar)
      → Once 60 tfs
      → done.closed1m ≡ none
      → tick_bar 60 ts price (lookup 60 done.map) ≡ some bar
      → (apply_tick tfs symbol ts price done).closed1m ≡ closed_bar 60 ts (lookup 60 done.map)
  unfolding apply_tick
  closed-once [] done bar o c t = absurd o
  closed-once (u ∷ us) done bar (inl (e, a)) c t =
      let minute : u ≡ 60 = (==_iff u 60).0 e in
      let own : tick_bar u ts price (lookup u done.map) ≡ some bar =
        subst (λ v. tick_bar v ts price (lookup v done.map) ≡ some bar) (sym minute) t in
      rw (own, apply_tick)
        (closed-Absent us _ a
          ∙ or_none (closed_bar u ts (lookup u done.map)) done.closed1m c
          ∙ ap (λ v. closed_bar v ts (lookup v done.map)) minute)
  closed-once (u ∷ us) done bar (inr (n, o)) c t =
      elim (Option-cases (tick_bar u ts price (lookup u done.map))) [
        | inl e ↦ rw (e, apply_tick) (closed-once us done bar o c t)
        | inr (other, e) ↦
            let shut = closed_bar-other u (lookup u done.map) n in
            let same : lookup 60 (insert u other done.map) ≡ lookup 60 done.map =
              lookup-insert u 60 other done.map ∙ rw n refl in
            rw (e, apply_tick)
              (closed-once us _ bar o (rw shut c) (rw same t) ∙ ap (closed_bar 60 ts) same)
      ]

restored-Absent :
    (tf : Timeframe) (tfs : List Timeframe) (sorted : List Bar) (map : List (Timeframe × Bar))
    → Absent tf tfs
    → lookup tf (restored tfs sorted map) ≡ lookup tf map
unfolding restored
restored-Absent tf [] sorted map a = refl
restored-Absent tf (u ∷ us) sorted map a =
    elim (Option-cases (head? (aggregate_onto u [] sorted))) [
      | inl e ↦ rw (e, restored) (restored-Absent tf us sorted map a.1)
      | inr (bar, e) ↦
          rw (e, restored)
            (restored-Absent tf us sorted _ a.1 ∙ lookup-insert u tf bar map ∙ rw a.0 refl)
    ]

-- `restore` gives a timeframe the last of its bars.
pub restored-once :
    (tf : Timeframe) (tfs : List Timeframe) (sorted : List Bar) (map : List (Timeframe × Bar))
    (bar : Bar)
    → Once tf tfs
    → head? (aggregate_onto tf [] sorted) ≡ some bar
    → lookup tf (restored tfs sorted map) ≡ some bar
unfolding restored
restored-once tf [] sorted map bar o h = absurd o
restored-once tf (u ∷ us) sorted map bar (inl (e, a)) h =
    let own : head? (aggregate_onto u [] sorted) ≡ some bar =
      subst (λ v. head? (aggregate_onto v [] sorted) ≡ some bar) (sym ((==_iff u tf).0 e)) h in
    rw (own, restored) (restored-Absent tf us sorted _ a ∙ lookup-insert u tf bar map ∙ rw e refl)
restored-once tf (u ∷ us) sorted map bar (inr (n, o)) h =
    elim (Option-cases (head? (aggregate_onto u [] sorted))) [
      | inl e ↦ rw (e, restored) (restored-once tf us sorted map bar o h)
      | inr (other, e) ↦ rw (e, restored) (restored-once tf us sorted _ bar o h)
    ]
