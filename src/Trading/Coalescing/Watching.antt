-- ===== src/Trading/Coalescing/Watching.antt =====
-- The calls of a coalescer and the frames of one key: what an offer keeps.
use mella_dashboard.Base.{
  ℕ, ◌+◌, ◌≤◌, ◌≡◌, ◌⊎◌, refl, ◌∙◌, ◌==◌, ==_iff, Bool, true, false, not, ◌&&◌, Option, none, some,
  List, [], ◌∷◌, ◌++◌, map, is_some, arith, lookup, insert, erase, lookup-insert, lookup-erase,
  if◌then◌else◌, Bool-cases, inl, inr,
}
use mella_dashboard.Trading.Coalescing.{Queued, Coalescer, is_due, offer, drain, forget}
use mella_dashboard.Trading.Coalescing.Spacing.{values, IsUnique, IsUnique-insert, IsUnique-erase}

-- A call: `offer` with a key, a value and an interval, `drain`, or `forget` with a key.
pub data Call {ℓ} (V : Type ℓ) : Type ℓ where
  offers : ℕ → V → ℕ → Call V
  drains : Call V
  forgets : ℕ → Call V

-- The coalescer; and, since one key was last forgotten, the frames of that key with their times, newest
-- first, and the last value offered under it.
pub record Watch {ℓ} (V : Type ℓ) : Type ℓ where
  pub coalescer : Coalescer V
  pub sent : List (ℕ × V)
  pub latest : Option V

and-false : (b : Bool) → (b && false) ≡ false
and-false b = ground arith

module _ {ℓ} {V : Type ℓ} where
  abbrev pub sent_now : ℕ → Option V → List (ℕ × V)
  sent_now now none = []
  sent_now now (some v) = (now, v) ∷ []

  unfoldable pub call : ℕ → ℕ → Call V → Watch V → Watch V
  call key now (offers k v interval_ms) w =
      let (out, c) = offer now k v interval_ms w.coalescer in
      if k == key
      then record { coalescer = c; sent = sent_now now out ++ w.sent; latest = some v }
      else record w { coalescer = c }
  call key now drains w =
      let (out, c) = drain now w.coalescer in
      record w { coalescer = c; sent = map (λ v. (now, v)) (values key out) ++ w.sent }
  call key now (forgets k) w =
      let c = forget k w.coalescer in
      if k == key
      then record { coalescer = c; sent = []; latest = none }
      else record w { coalescer = c }

  unfoldable pub calls : ℕ → List (ℕ × Call V) → Watch V → Watch V
  calls key [] w = w
  calls key (c ∷ cs) w = calls key cs (call key c.0 c.1 w)

  abbrev pub first_time : List (ℕ × V) → Option ℕ
  first_time [] = none
  first_time (f ∷ fs) = some f.0

  abbrev pub first_value : List (ℕ × V) → Option V
  first_value [] = none
  first_value (f ∷ fs) = some f.1

  -- Each frame comes at least the interval after the one before.
  abbrev pub IsSpaced : ℕ → List (ℕ × V) → Type 0
  IsSpaced interval_ms [] = Unit
  IsSpaced interval_ms (f ∷ []) = Unit
  IsSpaced interval_ms (f ∷ g ∷ gs) = (g.0 + interval_ms ≤ f.0) × IsSpaced interval_ms (g ∷ gs)

  -- The latest value is the one sent last, or it waits behind a frame that was sent.
  abbrev pub Waits : ℕ → ℕ → Watch V → Type ℓ
  Waits key interval_ms w =
      (q : Queued V) × (f : ℕ × V) × (fs : List (ℕ × V)) × (lookup key w.coalescer.pending ≡ some q)
      × (q.interval_ms ≡ interval_ms)
      × (w.latest ≡ some q.value)
      × (w.sent ≡ f ∷ fs)

  pub record IsPaced (key interval_ms : ℕ) (w : Watch V) : Type ℓ where
    pub unique : IsUnique w.coalescer.pending
    pub sent_at : lookup key w.coalescer.last_sent_at ≡ first_time w.sent
    pub spaced : IsSpaced interval_ms w.sent
    pub status :
        ((lookup key w.coalescer.pending ≡ none) × (w.latest ≡ first_value w.sent))
        ⊎ Waits key interval_ms w

  -- A frame at a time that is due keeps the distance.
  pub IsSpaced-due :
      (interval_ms now : ℕ) (v : V) (fs : List (ℕ × V))
      → IsSpaced interval_ms fs
      → is_due (first_time fs) interval_ms now ≡ true
      → IsSpaced interval_ms ((now, v) ∷ fs)
  IsSpaced-due interval_ms now v [] s d = tt
  IsSpaced-due interval_ms now v (f ∷ fs) s d = (ground arith, s)

  not-due :
      (fs : List (ℕ × V)) (interval_ms now : ℕ)
      → is_due (first_time fs) interval_ms now ≡ false
      → (f : ℕ × V) × (gs : List (ℕ × V)) × (fs ≡ f ∷ gs)
  not-due [] interval_ms now h = cc
  not-due (f ∷ gs) interval_ms now h = (f, gs, refl)

  -- An offer under the key itself.
  pub own-offer :
      (key interval_ms now : ℕ) (v : V) (w : Watch V)
      → IsPaced key interval_ms w
      → IsPaced key interval_ms (call key now (offers key v interval_ms) w)
  unfolding call offer
  own-offer key interval_ms now v w p =
      let own = (==_iff key key).1 refl in
      let c = w.coalescer in
      let q : Queued V = record { value = v; interval_ms = interval_ms } in
      let queued : lookup key (insert key q c.pending) ≡ some q =
        lookup-insert key key q c.pending ∙ rw own refl in
      elim p.status [
        | inr (old, f, fs, stored, i, l, e) ↦
            rw (stored, own)
              (rw (and-false _) (record {
                unique = IsUnique-insert key q c.pending p.unique;
                sent_at = p.sent_at;
                spaced = p.spaced;
                status = inr (q, f, fs, queued, refl, refl, e);
              }))
        | inl (empty, l) ↦ elim (Bool-cases (is_due (lookup key c.last_sent_at) interval_ms now)) [
          | inl d ↦
              rw (own, empty, d)
                (record {
                  unique = p.unique;
                  sent_at = lookup-insert key key now c.last_sent_at ∙ rw own refl;
                  spaced = IsSpaced-due interval_ms now v w.sent p.spaced (rw p.sent_at at d);
                  status = inl (empty, refl);
                })
          | inr d ↦
              let (f, fs, e) = not-due w.sent interval_ms now (rw p.sent_at at d) in
              rw (own, empty, d)
                (record {
                  unique = IsUnique-insert key q c.pending p.unique;
                  sent_at = p.sent_at;
                  spaced = p.spaced;
                  status = inr (q, f, fs, queued, refl, refl, e);
                })
        ]
      ]

  -- An offer under another key.
  pub other-offer :
      (key interval_ms now k i : ℕ) (v : V) (w : Watch V)
      → (k == key) ≡ false
      → IsPaced key interval_ms w
      → IsPaced key interval_ms (call key now (offers k v i) w)
  unfolding call offer
  other-offer key interval_ms now k i v w m p =
      let c = w.coalescer in
      let q : Queued V = record { value = v; interval_ms = i } in
      let queued : lookup key (insert k q c.pending) ≡ lookup key c.pending =
        lookup-insert k key q c.pending ∙ rw m refl in
      elim (Bool-cases
        (is_due (lookup k c.last_sent_at) i now && not (is_some (lookup k c.pending)))) [
          | inl d ↦
              rw (m, d)
                (record {
                  unique = p.unique;
                  sent_at = lookup-insert k key now c.last_sent_at ∙ rw m p.sent_at;
                  spaced = p.spaced;
                  status = p.status;
                })
          | inr d ↦
              rw (m, d)
                (record {
                  unique = IsUnique-insert k q c.pending p.unique;
                  sent_at = p.sent_at;
                  spaced = p.spaced;
                  status = elim p.status [
                    | inl (empty, l) ↦ inl (queued ∙ empty, l)
                    | inr (old, f, fs, stored, j, l, e) ↦ inr (old, f, fs, queued ∙ stored, j, l, e)
                  ];
                })
        ]

  -- A key that is forgotten starts again; another one stays as it is.
  pub forget-IsPaced :
      (key interval_ms now k : ℕ) (w : Watch V)
      → IsPaced key interval_ms w
      → IsPaced key interval_ms (call key now (forgets k) w)
  unfolding call forget
  forget-IsPaced key interval_ms now k w p =
      let c = w.coalescer in
      let unique = IsUnique-erase k c.pending p.unique in
      elim (Bool-cases (k == key)) [
        | inl m ↦ rw m (record {
          unique = unique;
          sent_at = lookup-erase k key c.last_sent_at ∙ rw m refl;
          spaced = tt;
          status = inl (lookup-erase k key c.pending ∙ rw m refl, refl);
        })
        | inr m ↦
            let queued : lookup key (erase k c.pending) ≡ lookup key c.pending =
              lookup-erase k key c.pending ∙ rw m refl in
            rw m (record {
              unique = unique;
              sent_at = lookup-erase k key c.last_sent_at ∙ rw m p.sent_at;
              spaced = p.spaced;
              status = elim p.status [
                | inl (empty, l) ↦ inl (queued ∙ empty, l)
                | inr (old, f, fs, stored, j, l, e) ↦ inr (old, f, fs, queued ∙ stored, j, l, e)
              ];
            })
      ]
