-- ===== src/Trading/Coalescing/Spacing.antt =====
-- The frames of one key: how far apart they are, and that the latest value is not lost.
use mella_dashboard.Base.{
  ℕ, ◌+◌, ◌≡◌, refl, sym, ap, ◌∙◌, ◌==◌, ==_iff, leb, Bool, false, none, some, List, [], ◌∷◌, any,
  arith, lookup, insert, erase, lookup-insert, lookup-erase, if◌then◌else◌, Bool-cases, inl, inr,
}
use mathlib.Core.Option.{some-injective}
use mella_dashboard.Trading.Coalescing.{
  Queued, Coalescer, is_ready, last_or_zero, drain_entries, drain,
}

module _ {ℓ} {V : Type ℓ} where
  -- The values that a call of `drain` sends under a key.
  abbrev pub values : ℕ → List (ℕ × V) → List V
  values key [] = []
  values key (f ∷ fs) = let rest = values key fs in if f.0 == key then f.1 ∷ rest else rest

  -- No key twice.
  abbrev pub has_entry : ℕ → List (ℕ × Queued V) → Bool
  has_entry key es = any (λ e. e.0 == key) es

  abbrev pub IsUnique : List (ℕ × Queued V) → Type 0
  IsUnique [] = Unit
  IsUnique (e ∷ es) = (has_entry e.0 es ≡ false) × IsUnique es

  no-entry : (key : ℕ) (es : List (ℕ × Queued V)) → has_entry key es ≡ false → lookup key es ≡ none
  unfolding lookup
  no-entry key [] h = refl
  no-entry key (e ∷ es) h = ground (arith, no-entry key es)

  drain-none :
      (now key : ℕ) (es : List (ℕ × Queued V)) (c : Coalescer V)
      → has_entry key es ≡ false
      → (values key (drain_entries now es c).0 ≡ [])
        × (lookup key (drain_entries now es c).1.last_sent_at ≡ lookup key c.last_sent_at)
        × (lookup key (drain_entries now es c).1.pending ≡ lookup key c.pending)
  unfolding drain_entries
  drain-none now key [] c h = (refl, refl, refl)
  drain-none now key (e ∷ es) c h = elim (Bool-cases (is_ready now c.last_sent_at e)) [
    | inl r ↦
        let next : Coalescer V = record {
          last_sent_at = insert e.0 now c.last_sent_at;
          pending = erase e.0 c.pending;
        } in
        let other : (e.0 == key) ≡ false = ground arith in
        let (a, b, d) = drain-none now key es next (ground arith) in
        rw r (
          rw other a,
          b ∙ lookup-insert e.0 key now c.last_sent_at ∙ rw other refl,
          d ∙ lookup-erase e.0 key c.pending ∙ rw other refl,
        )
    | inr r ↦ rw r (drain-none now key es c (ground arith))
  ]

  -- What a loop leaves of a key whose entry stands in it.
  abbrev pub SentOnce : ℕ → ℕ → Queued V → Coalescer V → List (ℕ × V) → Coalescer V → Type ℓ
  SentOnce now key q c out d =
      let ready = leb (last_or_zero (lookup key c.last_sent_at) + q.interval_ms) now in
      (values key out ≡ (if ready then q.value ∷ [] else []))
      × (lookup key d.last_sent_at ≡ (if ready then some now else lookup key c.last_sent_at))
      × (lookup key d.pending ≡ (if ready then none else lookup key c.pending))

  first-entry :
      (now : ℕ) (e : ℕ × Queued V) (es : List (ℕ × Queued V)) (c : Coalescer V)
      → has_entry e.0 es ≡ false
      → let r = drain_entries now (e ∷ es) c in SentOnce now e.0 e.1 c r.0 r.1
  unfolding drain_entries
  first-entry now e es c n =
      let own = (==_iff e.0 e.0).1 refl in
      elim (Bool-cases (is_ready now c.last_sent_at e)) [
        | inl r ↦
            let next : Coalescer V = record {
              last_sent_at = insert e.0 now c.last_sent_at;
              pending = erase e.0 c.pending;
            } in
            let (a, b, d) = drain-none now e.0 es next n in
            rw r (
              rw own (ap (λ l. e.1.value ∷ l) a),
              b ∙ lookup-insert e.0 e.0 now c.last_sent_at ∙ rw own refl,
              d ∙ lookup-erase e.0 e.0 c.pending ∙ rw own refl,
            )
        | inr r ↦ rw r (drain-none now e.0 es c n)
      ]

  -- The entry of another key makes no difference.
  later-entry :
      (now key : ℕ) (q : Queued V) (e : ℕ × Queued V) (es : List (ℕ × Queued V)) (c : Coalescer V)
      → (e.0 == key) ≡ false
      → ((d : Coalescer V) → let r = drain_entries now es d in SentOnce now key q d r.0 r.1)
      → let r = drain_entries now (e ∷ es) c in SentOnce now key q c r.0 r.1
  unfolding drain_entries
  later-entry now key q e es c m ih = elim (Bool-cases (is_ready now c.last_sent_at e)) [
    | inr r ↦ rw r (ih c)
    | inl r ↦
        let next : Coalescer V = record {
          last_sent_at = insert e.0 now c.last_sent_at;
          pending = erase e.0 c.pending;
        } in
        let (a, b, d) = ih next in
        let kept : lookup key next.last_sent_at ≡ lookup key c.last_sent_at =
          lookup-insert e.0 key now c.last_sent_at ∙ rw m refl in
        let queued : lookup key next.pending ≡ lookup key c.pending =
          lookup-erase e.0 key c.pending ∙ rw m refl in
        rw r (rw m (rw kept at a), rw kept at b, rw queued at rw kept at d)
  ]

  -- An entry that is ready is sent, once, and leaves the queue; one that is not stays.
  drain-entry :
      (now key : ℕ) (q : Queued V) (es : List (ℕ × Queued V)) (c : Coalescer V)
      → IsUnique es
      → lookup key es ≡ some q
      → let r = drain_entries now es c in SentOnce now key q c r.0 r.1
  unfolding lookup
  drain-entry now key q [] c u h = cc
  drain-entry now key q (e ∷ es) c (n, u) h = elim (Bool-cases (e.0 == key)) [
    | inl m ↦
        let same : e.1 ≡ q = some-injective _ _ (sym (rw m refl) ∙ h) in
        rw (sym same) (rw (sym ((==_iff e.0 key).0 m)) (first-entry now e es c n))
    | inr m ↦
        later-entry now key q e es c m (λ d. drain-entry now key q es d u (sym (rw m refl) ∙ h))
  ]

  absent-entry :
      (key : ℕ) (es : List (ℕ × Queued V)) → lookup key es ≡ none → has_entry key es ≡ false
  unfolding lookup
  absent-entry key [] h = refl
  absent-entry key (e ∷ es) h = elim (Bool-cases (e.0 == key)) [
    | inl m ↦ let clash : some e.1 ≡ none = sym (rw m refl) ∙ h in cc
    | inr m ↦ rw m (absent-entry key es (sym (rw m refl) ∙ h))
  ]

  -- What `drain` does to a key with an entry, and to one without.
  pub drain-queued :
      (now key : ℕ) (q : Queued V) (c : Coalescer V)
      → IsUnique c.pending
      → lookup key c.pending ≡ some q
      → SentOnce now key q c (drain now c).0 (drain now c).1
  unfolding drain
  drain-queued now key q c u h = drain-entry now key q c.pending c u h

  pub drain-idle :
      (now key : ℕ) (c : Coalescer V)
      → lookup key c.pending ≡ none
      → (values key (drain now c).0 ≡ [])
        × (lookup key (drain now c).1.last_sent_at ≡ lookup key c.last_sent_at)
        × (lookup key (drain now c).1.pending ≡ lookup key c.pending)
  unfolding drain
  drain-idle now key c h = drain-none now key c.pending c (absent-entry key c.pending h)

  has-insert :
      (key k : ℕ) (v : Queued V) (es : List (ℕ × Queued V))
      → has_entry k es ≡ false
      → (key == k) ≡ false
      → has_entry k (insert key v es) ≡ false
  unfolding insert
  has-insert key k v [] h m = rw m refl
  has-insert key k v (e ∷ es) h m = ground (arith, has-insert key k v es)

  pub IsUnique-insert :
      (key : ℕ) (v : Queued V) (es : List (ℕ × Queued V)) → IsUnique es → IsUnique (insert key v es)
  unfolding insert
  IsUnique-insert key v [] u = (refl, tt)
  IsUnique-insert key v (e ∷ es) (n, u) = elim (Bool-cases (e.0 == key)) [
    | inl m ↦ rw m (ap (λ k. has_entry k es) (sym ((==_iff e.0 key).0 m)) ∙ n, u)
    | inr m ↦
        let other : (key == e.0) ≡ false = ground arith in
        rw m (has-insert key e.0 v es n other, IsUnique-insert key v es u)
  ]

  has-erase :
      (key k : ℕ) (es : List (ℕ × Queued V))
      → has_entry k es ≡ false
      → has_entry k (erase key es) ≡ false
  unfolding erase
  has-erase key k [] h = refl
  has-erase key k (e ∷ es) h = ground (arith, has-erase key k es)

  pub IsUnique-erase : (key : ℕ) (es : List (ℕ × Queued V)) → IsUnique es → IsUnique (erase key es)
  unfolding erase
  IsUnique-erase key [] u = tt
  IsUnique-erase key (e ∷ es) (n, u) = elim (Bool-cases (e.0 == key)) [
    | inl m ↦ rw m (IsUnique-erase key es u)
    | inr m ↦ rw m (has-erase key e.0 es n, IsUnique-erase key es u)
  ]

  drain_entries-IsUnique :
      (now : ℕ) (es : List (ℕ × Queued V)) (c : Coalescer V)
      → IsUnique c.pending
      → IsUnique (drain_entries now es c).1.pending
  unfolding drain_entries
  drain_entries-IsUnique now [] c u = u
  drain_entries-IsUnique now (e ∷ es) c u = elim (Bool-cases (is_ready now c.last_sent_at e)) [
    | inl r ↦
        let next : Coalescer V = record {
          last_sent_at = insert e.0 now c.last_sent_at;
          pending = erase e.0 c.pending;
        } in
        rw r (drain_entries-IsUnique now es next (IsUnique-erase e.0 c.pending u))
    | inr r ↦ rw r (drain_entries-IsUnique now es c u)
  ]

  pub drain-IsUnique :
      (now : ℕ) (c : Coalescer V) → IsUnique c.pending → IsUnique (drain now c).1.pending
  unfolding drain
  drain-IsUnique now c u = drain_entries-IsUnique now c.pending c u
