-- ===== src/Trading/News/Covering.antt =====
-- What `activeNewsWindow` of src/trading/news.ts finds, against a description of the covering windows.
use mella_dashboard.Base.{
  ℕ, ◌+◌, ◌≤◌, ◌≡◌, ◌≢◌, ◌⊎◌, ◌↔◌, inl, inr, Option, none, some, List, [], ◌∷◌, All, Bool, false,
  not, ◌||◌, Bool-cases, arith, ◌-ℤ◌, ltb, refl,
}
use mella_dashboard.Trading.News.{
  NewsEvent, Currencies, NewsWindow, affects_instrument, window_of, outside, later, best_window,
  active_news_window,
}

-- The event is about a currency of the instrument, and the instant is at most the window away.
pub record Restricts (inst : Currencies) (now : ℕ) (window_ms : ℕ) (e : NewsEvent) : Type 0 where
  pub currency_known : e.currency ≢ 0
  pub about : (inst.base ≡ e.currency) ⊎ (inst.quote ≡ e.currency)
  pub begins : e.scheduled_at ≤ now + window_ms
  pub not_over : now ≤ e.scheduled_at + window_ms

-- Some element of the list.
abbrev pub Some {ℓ} : {A : Type ℓ} → (A → Type 0) → List A → Type 0
Some P [] = ⊥
Some P (x ∷ xs) = P x ⊎ Some P xs

-- No event restricts trading, or the window is one of those that do, and ends last.
abbrev pub IsLast : List NewsEvent → Currencies → ℕ → ℕ → Option NewsWindow → Type 0
IsLast events inst now window_ms none = All (λ e. ¬ Restricts inst now window_ms e) events
IsLast events inst now window_ms (some w) =
    Some (λ e. Restricts inst now window_ms e × (w ≡ window_of e window_ms)) events
    × All (λ e. Restricts inst now window_ms e → e.scheduled_at + window_ms ≤ w.end) events

later-cases :
    (w b : NewsWindow)
    → ((later w (some b) ≡ w) × (b.end ≤ w.end)) ⊎ ((later w (some b) ≡ b) × (w.end ≤ b.end))
unfolding later
later-cases w b = elim (Bool-cases (ltb b.end w.end)) [
  | inl k ↦ inl (rw k refl, ground arith)
  | inr k ↦ inr (rw k refl, ground arith)
]

module _ (inst : Currencies) (now : ℕ) (window_ms : ℕ) where
  -- The result of the loop that starts with `best`.
  abbrev Among : List NewsEvent → Option NewsWindow → Option NewsWindow → Type 0
  Among events best none = (best ≡ none) × All (λ e. ¬ Restricts inst now window_ms e) events
  Among events best (some w) =
      ((best ≡ some w)
        ⊎ Some (λ e. Restricts inst now window_ms e × (w ≡ window_of e window_ms)) events)
      × ((b : NewsWindow) → best ≡ some b → b.end ≤ w.end)
      × All (λ e. Restricts inst now window_ms e → e.scheduled_at + window_ms ≤ w.end) events

  abbrev skips : NewsEvent → Bool
  skips e = not (affects_instrument e inst) || outside now (window_of e window_ms)

  skips-Restricts : (e : NewsEvent) → (skips e ≡ false) ↔ Restricts inst now window_ms e
  unfolding affects_instrument outside window_of ◌-ℤ◌
  skips-Restricts e = ground arith

  Among-skipped :
      (e : NewsEvent) (events : List NewsEvent) (best : Option NewsWindow) (r : Option NewsWindow)
      → ¬ Restricts inst now window_ms e
      → Among events best r
      → Among (e ∷ events) best r
  Among-skipped e events best none n (b, all) = (b, (n, all))
  Among-skipped e events best (some w) n (origin, over, all) =
      (elim origin [ inl h ↦ inl h | inr h ↦ inr (inr h) ], over, ((λ h. absurd (n h)), all))

  Among-taken :
      (e : NewsEvent) (events : List NewsEvent) (best : Option NewsWindow) (r : Option NewsWindow)
      → Restricts inst now window_ms e
      → Among events (some (later (window_of e window_ms) best)) r
      → Among (e ∷ events) best r
  unfolding later window_of
  Among-taken e events none none h (b, all) = absurd (ground arith)
  Among-taken e events (some b) none h (c, all) = absurd (ground arith)
  Among-taken e events none (some w) h (origin, over, all) = (
    elim origin [ inl k ↦ inr (inl (h, cc)) | inr k ↦ inr (inr k) ],
    (λ b k. absurd (ground arith)),
    ((λ k. over (window_of e window_ms) refl), all),
  )
  Among-taken e events (some b) (some w) h (origin, over, all) =
      elim (later-cases (window_of e window_ms) b) [
        | inl (k, l) ↦ (
          elim (rw k at origin) [ inl o ↦ inr (inl (h, cc)) | inr o ↦ inr (inr o) ],
          (λ c o. ground (arith, over (window_of e window_ms) cc)),
          ((λ o. over (window_of e window_ms) cc), all),
        )
        | inr (k, l) ↦ (
          elim (rw k at origin) [ inl o ↦ inl o | inr o ↦ inr (inr o) ],
          (λ c o. ground (arith, over b cc, rw k at over c cc)),
          ((λ o. ground (arith, over b cc)), all),
        )
      ]

  best_window-Among :
      (events : List NewsEvent) (best : Option NewsWindow)
      → Among events best (best_window events inst now window_ms best)
  unfolding best_window
  best_window-Among [] none = (refl, _)
  best_window-Among [] (some b) = (inl refl, (λ c k. ground arith), _)
  best_window-Among (e ∷ events) best = elim (Bool-cases (skips e)) [
    | inl s ↦ rw s (
        Among-skipped e events best _ (λ h. absurd (ground (arith, s, (skips-Restricts e).1 h)))
          (best_window-Among events best))
    | inr s ↦ rw s (
        Among-taken e events best _ ((skips-Restricts e).0 s)
          (best_window-Among events (some (later (window_of e window_ms) best))))
  ]

IsLast-Among :
    (events : List NewsEvent) (inst : Currencies) (now : ℕ) (window_ms : ℕ) (r : Option NewsWindow)
    → Among inst now window_ms events none r
    → IsLast events inst now window_ms r
IsLast-Among events inst now window_ms none (b, all) = all
IsLast-Among events inst now window_ms (some w) (origin, over, all) =
    (elim origin [ inl k ↦ absurd (ground arith) | inr k ↦ k ], all)

active_news_window-best_window :
    (events : List NewsEvent) (inst : Currencies) (now : ℕ) (window_ms : ℕ)
    → 1 ≤ window_ms
    → active_news_window events inst now window_ms ≡ best_window events inst now window_ms none
unfolding active_news_window
active_news_window-best_window events inst now window_ms h = ground arith

-- With a window of more than no time, the search finds a window exactly when some event of a currency
-- of the instrument is at most the window away, and then the window of such an event that ends last.
pub active_news_window-IsLast :
    (events : List NewsEvent) (inst : Currencies) (now : ℕ) (window_ms : ℕ)
    → 1 ≤ window_ms
    → IsLast events inst now window_ms (active_news_window events inst now window_ms)
active_news_window-IsLast events inst now window_ms h =
    rw (active_news_window-best_window events inst now window_ms h)
      (IsLast-Among events inst now window_ms _ (best_window-Among inst now window_ms events none))
