-- ===== src/Trading/Coalescing/Pace.antt =====
-- Frames of one key over any calls: since it was last forgotten never closer than the interval, and the latest value comes through.
use mella_dashboard.Base.{
  ℕ, ◌+◌, ◌≡◌, ◌⊎◌, refl, sym, ap, ◌∙◌, ◌==◌, ==_iff, leb, true, false, Option, none, some, List,
  [], ◌∷◌, All, lookup, Bool-cases, inl, inr,
}
use mella_dashboard.Trading.Coalescing.{is_due, last_or_zero, drain}
use mella_dashboard.Trading.Coalescing.Watching.{
  Call, offers, drains, forgets, Watch, call, calls, first_time, first_value, IsSpaced, IsPaced,
  IsSpaced-due, own-offer, other-offer, forget-IsPaced,
}
use mella_dashboard.Trading.Coalescing.Spacing.{values, drain-queued, drain-idle, drain-IsUnique}

-- The two ways to ask whether a key is due agree once it was sent.
first-due :
    (t interval_ms now i : ℕ) (last : Option ℕ)
    → leb (last_or_zero last + i) now ≡ true
    → i ≡ interval_ms
    → last ≡ some t
    → is_due (some t) interval_ms now ≡ true
first-due t interval_ms now i last h e l = sym (rw (l, e) refl) ∙ h

due-first :
    (t interval_ms now i : ℕ) (last : Option ℕ)
    → is_due (some t) interval_ms now ≡ true
    → i ≡ interval_ms
    → last ≡ some t
    → leb (last_or_zero last + i) now ≡ true
due-first t interval_ms now i last h e l = rw (l, e) h

module _ {ℓ} {V : Type ℓ} where
  -- A drain.
  drain-IsPaced :
      (key interval_ms now : ℕ) (w : Watch V)
      → IsPaced key interval_ms w
      → IsPaced key interval_ms (call key now drains w)
  unfolding call
  drain-IsPaced key interval_ms now w p =
      let c = w.coalescer in
      let unique = drain-IsUnique now c p.unique in
      elim p.status [
        | inl (empty, l) ↦
            let (a, b, d) = drain-idle now key c empty in
            rw a (record {
              unique = unique;
              sent_at = b ∙ p.sent_at;
              spaced = p.spaced;
              status = inl (d ∙ empty, l);
            })
        | inr (q, f, fs, stored, i, l, e) ↦
            let (a, b, d) = drain-queued now key q c p.unique stored in
            elim (Bool-cases (leb (last_or_zero (lookup key c.last_sent_at) + q.interval_ms) now)) [
              | inl r ↦
                  let due : is_due (first_time w.sent) interval_ms now ≡ true = rw e (
                    first-due f.0 interval_ms now q.interval_ms (lookup key c.last_sent_at) r i
                      (p.sent_at ∙ ap first_time e)) in
                  let one : values key (drain now c).0 ≡ q.value ∷ [] = rw r at a in
                  rw one (record {
                    unique = unique;
                    sent_at = rw r at b;
                    spaced = IsSpaced-due interval_ms now q.value w.sent p.spaced due;
                    status = inl (rw r at d, l);
                  })
              | inr r ↦
                  let none_sent : values key (drain now c).0 ≡ [] = rw r at a in
                  rw none_sent (record {
                    unique = unique;
                    sent_at = (rw r at b) ∙ p.sent_at;
                    spaced = p.spaced;
                    status = inr (q, f, fs, (rw r at d) ∙ stored, i, l, e);
                  })
            ]
      ]

  -- A drain that is due leaves nothing waiting.
  flushed :
      (key interval_ms now : ℕ) (w : Watch V)
      → IsPaced key interval_ms w
      → is_due (first_time w.sent) interval_ms now ≡ true
      → let after = call key now drains w in
        (lookup key after.coalescer.pending ≡ none) × (w.latest ≡ first_value after.sent)
  unfolding call
  flushed key interval_ms now w p due = elim p.status [
    | inl (empty, l) ↦ let (a, b, d) = drain-idle now key w.coalescer empty in (d ∙ empty, rw a l)
    | inr (q, f, fs, stored, i, l, e) ↦
        let (a, b, d) = drain-queued now key q w.coalescer p.unique stored in
        let r =
          due-first f.0 interval_ms now q.interval_ms (lookup key w.coalescer.last_sent_at)
            (rw e at due) i (p.sent_at ∙ ap first_time e) in
        (rw r at d, rw (rw r at a) l)
  ]

  -- The offers under the key come with its interval.
  abbrev pub IsOffered : ℕ → ℕ → ℕ × Call V → Type 0
  IsOffered key interval_ms (now, drains) = Unit
  IsOffered key interval_ms (now, forgets k) = Unit
  IsOffered key interval_ms (now, offers k v i) = ((k == key) ≡ false) ⊎ (i ≡ interval_ms)

  call-IsPaced :
      (key interval_ms : ℕ) (c : ℕ × Call V) (w : Watch V)
      → IsOffered key interval_ms c
      → IsPaced key interval_ms w
      → IsPaced key interval_ms (call key c.0 c.1 w)
  call-IsPaced key interval_ms (now, drains) w h p = drain-IsPaced key interval_ms now w p
  call-IsPaced key interval_ms (now, forgets k) w h p = forget-IsPaced key interval_ms now k w p
  call-IsPaced key interval_ms (now, offers k v i) w h p = elim (Bool-cases (k == key)) [
    | inr m ↦ other-offer key interval_ms now k i v w m p
    | inl m ↦ elim h [
      | inl n ↦ cc
      | inr e ↦ rw e (rw ((==_iff k key).0 m) (own-offer key interval_ms now v w p))
    ]
  ]

  calls-IsPaced :
      (key interval_ms : ℕ) (cs : List (ℕ × Call V)) (w : Watch V)
      → All (IsOffered key interval_ms) cs
      → IsPaced key interval_ms w
      → IsPaced key interval_ms (calls key cs w)
  unfolding calls
  calls-IsPaced key interval_ms [] w h p = p
  calls-IsPaced key interval_ms (c ∷ cs) w (h, hs) p =
      calls-IsPaced key interval_ms cs (call key c.0 c.1 w) hs
        (call-IsPaced key interval_ms c w h p)

  abbrev pub nothing_sent : Watch V
  nothing_sent = record {
    coalescer = record { last_sent_at = []; pending = [] };
    sent = [];
    latest = none;
  }

  start-IsPaced : (key interval_ms : ℕ) → IsPaced key interval_ms nothing_sent
  unfolding lookup
  start-IsPaced key interval_ms = record {
    unique = tt;
    sent_at = refl;
    spaced = tt;
    status = inl (refl, refl);
  }

  -- Over any calls of the class in which a key is offered with one interval, its frames since it was
  -- last forgotten are at least that interval apart; and a drain that comes the interval after the last
  -- of them, or later, leaves the value that was offered last as the one sent last, with nothing of the
  -- key waiting.
  pub calls-paced :
      (key interval_ms now : ℕ) (cs : List (ℕ × Call V))
      → All (IsOffered key interval_ms) cs
      → is_due (first_time (calls key cs nothing_sent).sent) interval_ms now ≡ true
      → let w = calls key cs nothing_sent in
        let after = call key now drains w in
        IsSpaced interval_ms w.sent
        × (lookup key after.coalescer.pending ≡ none)
        × (w.latest ≡ first_value after.sent)
  calls-paced key interval_ms now cs h due =
      let p = calls-IsPaced key interval_ms cs nothing_sent h (start-IsPaced key interval_ms) in
      let (idle, last) = flushed key interval_ms now (calls key cs nothing_sent) p due in
      (p.spaced, idle, last)
