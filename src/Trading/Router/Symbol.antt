-- ===== src/Trading/Router/Symbol.antt =====
-- One symbol of the router: `evaluateSymbol`, `switchTo`, and the part of `ingest` behind the lookup.
pub mod Switching
pub mod Forwarding
use mella_dashboard.Base.{
  ℕ, ◌+◌, ◌-◌, ◌/◌, Bool, true, false, not, ◌&&◌, ◌||◌, Option, none, some, List, [], ◌∷◌, ltb, leb,
  ◌==◌, if◌then◌else◌, lookup, insert, ◌++◌,
}

abbrev pub Source : Type 0
Source = ℕ

pub record Tick : Type 0 where
  pub symbol : ℕ
  pub bid : ℕ
  pub ask : ℕ
  pub ts : ℕ
  pub source : Source

pub record FeedRoute : Type 0 where
  pub symbol : ℕ
  pub primary : Source
  pub backup : Option Source

pub data FeedSwitchReason : Type 0 where
  primary_stale primary_recovered backup_stale : FeedSwitchReason

pub record FeedSwitchEvent : Type 0 where
  pub symbol : ℕ
  pub from : Source
  pub to : Source
  pub reason : FeedSwitchReason
  pub at : ℕ
  pub primary_last_tick_at : Option ℕ
  pub backup_last_tick_at : Option ℕ

-- The options that the constructor has normalised; `failback_align_ms` is 0 for no alignment.
pub record Options : Type 0 where
  pub stale_ms : ℕ
  pub stable_ms : ℕ
  pub failback_align_ms : ℕ
  pub history_size : ℕ

-- A source's latest tick, and when it came.
pub record Latest : Type 0 where
  pub at : ℕ
  pub tick : Tick

pub record SymbolState : Type 0 where
  pub route : FeedRoute
  pub active : Source
  pub active_since : ℕ
  pub since : ℕ
  pub last : List (Source × Latest)
  pub primary_healthy_since : Option ℕ
  pub switches : ℕ
  pub failback_due_bucket : Option ℕ

-- The new state of a symbol, and what the listeners are called with.
pub record Outcome : Type 0 where
  pub state : SymbolState
  pub events : List FeedSwitchEvent
  pub forwarded : List Tick

abbrev pub quiet : SymbolState → Outcome
quiet st = record { state = st; events = []; forwarded = [] }

abbrev pub at_of : Option Latest → Option ℕ
at_of none = none
at_of (some l) = some l.at

-- `st.last.get(source)?.at ?? null`.
unfoldable pub last_at : SymbolState → Source → Option ℕ
last_at st source = at_of (lookup source st.last)

abbrev pub backup_last_at : SymbolState → Option Source → Option ℕ
backup_last_at st none = none
backup_last_at st (some b) = last_at st b

-- `at != null && now - at <= staleMs`. The limit is positive, so a difference that is cut off at 0
-- answers as a negative one does.
abbrev pub is_fresh : Options → ℕ → Option ℕ → Bool
is_fresh o now none = false
is_fresh o now (some at) = leb (now - at) o.stale_ms

abbrev pub hand_over : Options → ℕ → Option Latest → List Tick
hand_over o now none = []
hand_over o now (some l) = if leb (now - l.at) o.stale_ms then l.tick ∷ [] else []

unfoldable pub switch_to : Options → SymbolState → Source → FeedSwitchReason → ℕ → Outcome
unfolding last_at
switch_to o st to reason now = record {
  state = record st {
    failback_due_bucket = none;
    active = to;
    active_since = now;
    switches = st.switches + 1;
  };
  events =
      record {
        symbol = st.route.symbol;
        from = st.active;
        to = to;
        reason = reason;
        at = now;
        primary_last_tick_at = last_at st st.route.primary;
        backup_last_tick_at = backup_last_at st st.route.backup;
      }
      ∷ [];
  forwarded = hand_over o now (lookup to st.last);
}

abbrev pub get_or_else : Option ℕ → ℕ → ℕ
get_or_else none d = d
get_or_else (some n) d = n

-- `now - healthySince >= stableMs`, for a run that has begun.
abbrev pub is_stable : Options → ℕ → Option ℕ → Bool
is_stable o now none = false
is_stable o now (some h) = leb o.stable_ms (now - h)

-- The aligned failback: the bucket in which it became due is kept, and it waits for the next one.
aligned : Options → SymbolState → (bucket : ℕ) → Bool → (now : ℕ) → Outcome
unfolding switch_to
aligned o st bucket backup_fresh now =
    let due = get_or_else st.failback_due_bucket bucket in
    let marked = record st { failback_due_bucket = some due } in
    if leb bucket due && backup_fresh
    then quiet marked
    else switch_to o marked st.route.primary primary_recovered now

failback : Options → SymbolState → ℕ → Bool → Outcome
unfolding switch_to aligned
failback o st now backup_fresh =
    if ltb 0 o.failback_align_ms
    then aligned o st (now / o.failback_align_ms) backup_fresh now
    else switch_to o st st.route.primary primary_recovered now

-- On the backup.
on_backup : Options → SymbolState → ℕ → Bool → Bool → Outcome
unfolding failback switch_to
on_backup o st now primary_fresh backup_fresh =
    if primary_fresh && is_stable o now st.primary_healthy_since
    then failback o st now backup_fresh
    else let reset = record st { failback_due_bucket = none } in
      if primary_fresh && not backup_fresh
      then switch_to o reset st.route.primary backup_stale now
      else quiet reset

-- On the primary.
on_primary : Options → SymbolState → ℕ → Source → Option ℕ → Bool → Outcome
unfolding switch_to
on_primary o st now backup primary_at backup_fresh =
    if ltb o.stale_ms (now - get_or_else primary_at st.since) && backup_fresh
    then switch_to o st backup primary_stale now
    else quiet st

evaluate_with : Options → SymbolState → ℕ → Option Source → Outcome
unfolding last_at on_primary on_backup
evaluate_with o st now none = quiet st
evaluate_with o st now (some backup) =
    let primary_at = last_at st st.route.primary in
    let primary_fresh = is_fresh o now primary_at in
    let backup_fresh = is_fresh o now (last_at st backup) in
    let st' = record st {
      primary_healthy_since = if primary_fresh then st.primary_healthy_since else none;
    } in
    if st.active == st.route.primary
    then on_primary o st' now backup primary_at backup_fresh
    else on_backup o st' now primary_fresh backup_fresh

unfoldable pub evaluate_symbol : Options → SymbolState → ℕ → Outcome
unfolding evaluate_with
evaluate_symbol o st now = evaluate_with o st now st.route.backup

abbrev pub is_source : Source → Option Source → Bool
is_source s none = false
is_source s (some b) = s == b

-- `prev == null || now - prev > staleMs || st.primaryHealthySince == null`.
abbrev pub restarts : Options → ℕ → Option ℕ → Option ℕ → Bool
restarts o now none healthy = true
restarts o now (some prev) none = true
restarts o now (some prev) (some h) = ltb o.stale_ms (now - prev)

-- The bookkeeping of `ingest` before the symbol is evaluated.
unfoldable pub note_tick : Options → SymbolState → ℕ → Source → Tick → SymbolState
unfolding last_at
note_tick o st now source tick =
    let healthy =
      if source == st.route.primary
      then if restarts o now (last_at st source) st.primary_healthy_since
        then some now
        else st.primary_healthy_since
      else st.primary_healthy_since in
    record st {
      primary_healthy_since = healthy;
      last = insert source (record { at = now; tick = tick }) st.last;
    }

-- The end of `ingest`: whether the tick is forwarded, after what the evaluation did.
abbrev pub deliver : Source → Tick → Source → Outcome → Outcome × Bool
deliver source tick before r =
    if source == r.state.active
    then if r.state.active == before
      then (record r { forwarded = r.forwarded ++ (tick ∷ []) }, true)
      else (r, true)
    else (r, false)

unfoldable pub ingest_symbol : Options → SymbolState → ℕ → Source → Tick → Outcome × Bool
unfolding note_tick
ingest_symbol o st now source tick =
    if source == st.route.primary || is_source source st.route.backup
    then deliver source tick st.active (evaluate_symbol o (note_tick o st now source tick) now)
    else (quiet st, false)
