-- ===== src/Trading/Engine/Breaching.antt =====
-- The engine's own check of the floors, src/trading/engine.ts, beside the decision of
-- src/lib/services/challengeRules.ts.
use mella_dashboard.Base.{
  ℕ, ◌==◌, ◌≡◌, ◌≢◌, ◌⊎◌, ◌↔◌, ◌&&◌, not, Bool, true, false, List, [], ◌∷◌, none, Bool-cases,
  Option-cases, inl, inr, arith, refl, any, ◌∙◌,
}
use mella_dashboard.Challenge.Types.{active, failed, funded, ChallengeDecisionInput}
use mella_dashboard.Challenge.Rules.{determine_challenge_transition}
use mella_dashboard.Trading.Engine.Equity.{recompute-breaching}
use mella_dashboard.Trading.Engine.{
  EnginePosition, EngineAccount, Tracked, Context, mark_position, stop_fired, position_on_tick,
  positions_on_tick, recompute, holds_stale_symbol, dd_floor, dl_floor, breach_reason, check_breach,
  fire, review, account_on_tick,
}

-- The input of the decision with the account as the engine holds it.
abbrev pub watched : EngineAccount → ChallengeDecisionInput → ChallengeDecisionInput
watched a i = record i {
  starting_balance = a.starting_balance;
  equity = a.equity;
  high_water_mark = a.high_water_mark;
  daily_anchor_balance = a.daily_anchor_balance;
  snapshot = a.snapshot.risk;
}

-- On the same figures of an active or funded account, the engine sees a breach exactly when the
-- decision reports one of the two floors broken; then the decision fails the account, for the reason
-- that the engine gives.
pub breach_reason-decision :
    (a : EngineAccount) (i : ChallengeDecisionInput)
    → (i.status ≡ active) ⊎ (i.status ≡ funded)
    → let d = determine_challenge_transition (watched a i) in
      ((breach_reason a ≡ none) ↔ ((d.dd_breach ≡ false) × (d.daily_breach ≡ false)))
      × (breach_reason a ≢ none → d.failure_reason ≡ breach_reason a)
      × (breach_reason a ≢ none → d.next_status ≡ failed)
unfolding determine_challenge_transition breach_reason dd_floor dl_floor
breach_reason-decision a i s = (ground arith, ground arith, ground arith)

mark_position-symbol :
    (c : Context) (p : EnginePosition)
    → (mark_position c.instrument c.rate c.quote p).symbol ≡ p.symbol
unfolding mark_position
mark_position-symbol c p = elim (Option-cases c.rate) [ inl e ↦ rw e refl | inr (r, e) ↦ rw e refl ]

position_on_tick-symbol :
    (c : Context) (armed : Bool) (p : EnginePosition)
    → (position_on_tick c armed p).0.symbol ≡ p.symbol
unfolding position_on_tick
position_on_tick-symbol c armed p = elim (Bool-cases (p.symbol == c.symbol)) [
  | inr e ↦ rw e refl
  | inl e ↦ elim (Bool-cases armed) [
    | inr f ↦ rw (e, f) (mark_position-symbol c p)
    | inl f ↦
        elim (Option-cases (stop_fired c.quote (mark_position c.instrument c.rate c.quote p))) [
          | inl g ↦ rw (e, f, g) (mark_position-symbol c p)
          | inr (s, g) ↦ rw (e, f, g) (mark_position-symbol c p)
        ]
  ]
]

positions_on_tick-symbols :
    (c : Context) (armed : Bool) (f : ℕ → Bool) (ps : List EnginePosition)
    → any (λ p. f p.symbol) (positions_on_tick c armed ps).0 ≡ any (λ p. f p.symbol) ps
unfolding positions_on_tick
positions_on_tick-symbols c armed f [] = refl
positions_on_tick-symbols c armed f (p ∷ ps) =
    rw (position_on_tick-symbol c armed p, positions_on_tick-symbols c armed f ps) refl

fire-stale :
    (c : Context) (t : Tracked)
    → holds_stale_symbol c.stale (fire c t).account ≡ holds_stale_symbol c.stale t.account
unfolding fire holds_stale_symbol
fire-stale c t =
    positions_on_tick-symbols c _ (λ symbol. any (λ s. s == symbol) c.stale) t.account.positions

fire-breaching : (c : Context) (t : Tracked) → (fire c t).account.breaching ≡ t.account.breaching
unfolding fire
fire-breaching c t = refl

breach_reason-breaching :
    (a : EngineAccount) (b : Bool) → breach_reason (record a { breaching = b }) ≡ breach_reason a
unfolding breach_reason dd_floor dl_floor
breach_reason-breaching a b = refl

check_breach-breaching :
    (t : Tracked)
    → t.account.breaching ≡ false
    → ((check_breach t).account.breaching ≡ true) ↔ (breach_reason (check_breach t).account ≢ none)
unfolding check_breach
check_breach-breaching t h = elim (Option-cases (breach_reason t.account)) [
  | inl e ↦ rw (check_breach, e) (ground (arith, h, e))
  | inr (r, e) ↦ rw (check_breach, e) (ground (arith, e, breach_reason-breaching t.account true))
]

-- The condition under which an account is checked.
abbrev is_watched : Context → Tracked → Bool
is_watched c t = c.is_open && not t.account.breaching && not (holds_stale_symbol c.stale t.account)

review-check_breach :
    (c : Context) (t : Tracked)
    → is_watched c t ≡ true
    → review c t ≡ check_breach (record t { account = recompute t.account })
unfolding review
review-check_breach c t h = rw h refl

review-recompute :
    (c : Context) (t : Tracked)
    → is_watched c t ≡ false
    → review c t ≡ record t { account = recompute t.account }
unfolding review
review-recompute c t h = rw h refl

fire-is_watched : (c : Context) (t : Tracked) → is_watched c (fire c t) ≡ is_watched c t
fire-is_watched c t = rw (fire-stale c t, fire-breaching c t) refl

account_on_tick-review :
    (c : Context) (t : Tracked)
    → any (λ p. p.symbol == c.symbol) t.account.positions ≡ true
    → account_on_tick c t ≡ review c (fire c t)
unfolding account_on_tick
account_on_tick-review c t k = rw k refl

-- The account that `review` recomputes was not breaching.
abbrev reviewed : Context → Tracked → Tracked
reviewed c t = record (fire c t) { account = recompute (fire c t).account }

reviewed-breaching :
    (c : Context) (t : Tracked)
    → t.account.breaching ≡ false
    → (reviewed c t).account.breaching ≡ false
reviewed-breaching c t h = recompute-breaching (fire c t).account ∙ fire-breaching c t ∙ h

-- A price of a symbol that an account holds, on an open market with no stale symbol among its
-- positions, marks an account for a breach exactly when its figures after that price break a floor;
-- while the market is halted or a symbol it holds is stale, no price does.
pub account_on_tick-breaching :
    (c : Context) (t : Tracked)
    → t.account.breaching ≡ false
    → any (λ p. p.symbol == c.symbol) t.account.positions ≡ true
    → let a = (account_on_tick c t).account in
      (c.is_open ≡ true
        → holds_stale_symbol c.stale t.account ≡ false
        → (a.breaching ≡ true) ↔ (breach_reason a ≢ none))
      × ((c.is_open ≡ false) ⊎ (holds_stale_symbol c.stale t.account ≡ true) → a.breaching ≡ false)
account_on_tick-breaching c t h k = rw (account_on_tick-review c t k) (
  (λ o s.
      rw (review-check_breach c (fire c t) (fire-is_watched c t ∙ ground arith))
        (check_breach-breaching (reviewed c t) (reviewed-breaching c t h))),
  (λ n.
      rw (review-recompute c (fire c t) (fire-is_watched c t ∙ ground arith))
        (reviewed-breaching c t h)),
)
