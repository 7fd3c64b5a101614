-- ===== src/Trading/Router/Symbol/Switching.antt =====
-- When a symbol switches its feed.
use mella_dashboard.Base.{
  ℕ, ◌-◌, ◌/◌, ◌≤◌, ◌<◌, ◌≡◌, ◌≢◌, ◌⊎◌, ◌↔◌, true, Option, none, some, [], arith,
}
use mella_dashboard.Trading.Router.Symbol.{
  Source, Options, SymbolState, last_at, get_or_else, evaluate_symbol, is_stable,
}

-- The source ticked within the staleness limit.
abbrev pub IsFresh : Options → ℕ → Option ℕ → Type 0
IsFresh o now none = ⊥
IsFresh o now (some at) = now - at ≤ o.stale_ms

-- The evaluation of a symbol on its primary switches exactly when the primary, or the route where it
-- never ticked, has been silent for longer than the limit and the backup is fresh; the switch is to
-- the backup.
pub failover_iff :
    (o : Options) (st : SymbolState) (now : ℕ) (b : Source)
    → st.route.backup ≡ some b
    → st.active ≡ st.route.primary
    → b ≢ st.route.primary
    → let r = evaluate_symbol o st now in
      ((r.state.active ≡ b) ↔ (
        (o.stale_ms < now - get_or_else (last_at st st.route.primary) st.since)
        × IsFresh o now (last_at st b)))
      × ((r.state.active ≡ b) ⊎ (r.state.active ≡ st.route.primary))
unfolding evaluate_symbol
failover_iff o st now b e a n = rw e (ground arith)

-- With both feeds silent nothing switches.
pub silent-keeps :
    (o : Options) (st : SymbolState) (now : ℕ) (b : Source)
    → st.route.backup ≡ some b
    → ¬ IsFresh o now (last_at st st.route.primary)
    → ¬ IsFresh o now (last_at st b)
    → let r = evaluate_symbol o st now in (r.state.active ≡ st.active) × (r.events ≡ [])
unfolding evaluate_symbol
silent-keeps o st now b e p q = rw e (ground arith)

-- The primary has been fresh and healthy for the whole stable period.
abbrev pub IsStable : Options → ℕ → SymbolState → Type 0
IsStable o now st =
    IsFresh o now (last_at st st.route.primary) × (is_stable o now st.primary_healthy_since ≡ true)

-- Without alignment, the evaluation of a symbol on its backup returns to the primary exactly when the
-- primary is stable, or is fresh while the backup is silent.
pub failback_iff :
    (o : Options) (st : SymbolState) (now : ℕ) (b : Source)
    → st.route.backup ≡ some b
    → st.active ≡ b
    → b ≢ st.route.primary
    → o.failback_align_ms ≡ 0
    → ((evaluate_symbol o st now).state.active ≡ st.route.primary) ↔ (
        IsStable o now st
        ⊎ (IsFresh o now (last_at st st.route.primary) × ¬ IsFresh o now (last_at st b)))
unfolding evaluate_symbol
failback_iff o st now b e a n z = rw e (ground arith)

-- With alignment a planned failback, while the backup is fresh, waits for a bucket later than the one
-- in which it became due.
pub failback_aligned :
    (o : Options) (st : SymbolState) (now : ℕ) (b : Source)
    → st.route.backup ≡ some b
    → st.active ≡ b
    → b ≢ st.route.primary
    → 0 < o.failback_align_ms
    → IsFresh o now (last_at st b)
    → let bucket = now / o.failback_align_ms in
      ((evaluate_symbol o st now).state.active ≡ st.route.primary)
      ↔ (IsStable o now st × (get_or_else st.failback_due_bucket bucket < bucket))
unfolding evaluate_symbol
failback_aligned o st now b e a n z f = rw e (ground arith)
