-- ===== src/Trading/Coalescing.antt =====
-- The class `Coalescer` of src/trading/coalesce.ts, which the gateway keeps for each connection: at
-- most one frame per key and interval, always the latest value. Keys are numbers, `now` is a parameter.
pub mod Spacing
pub mod Watching
pub mod Pace
mod Examples
use mella_dashboard.Base.{
  ℕ, ◌+◌, leb, Bool, true, false, not, ◌&&◌, Option, none, some, List, [], ◌∷◌, is_some, length,
  if◌then◌else◌, lookup, insert, erase,
}

pub record Queued {ℓ} (V : Type ℓ) : Type ℓ where
  pub value : V
  pub interval_ms : ℕ

pub record Coalescer {ℓ} (V : Type ℓ) : Type ℓ where
  pub last_sent_at : List (ℕ × ℕ)
  pub pending : List (ℕ × Queued V)

-- `now - last >= interval`, and true where nothing was sent.
abbrev pub is_due : Option ℕ → ℕ → ℕ → Bool
is_due none interval_ms now = true
is_due (some last) interval_ms now = leb (last + interval_ms) now

-- `lastSentAt.get(key) ?? 0`.
abbrev pub last_or_zero : Option ℕ → ℕ
last_or_zero none = 0
last_or_zero (some t) = t

module _ {ℓ} {V : Type ℓ} where
  -- The value to send right now, or none if it was queued.
  unfoldable pub offer : ℕ → ℕ → V → ℕ → Coalescer V → Option V × Coalescer V
  offer now key value interval_ms c =
      if is_due (lookup key c.last_sent_at) interval_ms now && not (is_some (lookup key c.pending))
      then (some value, record c { last_sent_at = insert key now c.last_sent_at })
      else (
        none,
        record c {
          pending = insert key (record { value = value; interval_ms = interval_ms }) c.pending;
        },
      )

  abbrev pub is_ready : ℕ → List (ℕ × ℕ) → ℕ × Queued V → Bool
  is_ready now sent entry = leb (last_or_zero (lookup entry.0 sent) + entry.1.interval_ms) now

  -- The loop of `drain` over the entries: what it sends, and the maps that it leaves.
  unfoldable pub drain_entries : ℕ → List (ℕ × Queued V) → Coalescer V → List (ℕ × V) × Coalescer V
  drain_entries now [] c = ([], c)
  drain_entries now (e ∷ es) c =
      let ready = is_ready now c.last_sent_at e in
      let (out, rest) = drain_entries now es (
        if ready
        then record { last_sent_at = insert e.0 now c.last_sent_at; pending = erase e.0 c.pending }
        else c) in
      (if ready then (e.0, e.1.value) ∷ out else out, rest)

  unfoldable pub drain : ℕ → Coalescer V → List (ℕ × V) × Coalescer V
  drain now c = drain_entries now c.pending c

  unfoldable pub pending_count : Coalescer V → ℕ
  pending_count c = length c.pending

  unfoldable pub forget : ℕ → Coalescer V → Coalescer V
  forget key c = record { last_sent_at = erase key c.last_sent_at; pending = erase key c.pending }
