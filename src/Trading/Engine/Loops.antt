-- ===== src/Trading/Engine/Loops.antt =====
-- What the loops of `onTick` of src/trading/engine.ts put on the queue.
use mella_dashboard.Base.{
  ℕ, ◌+◌, ◌==◌, ◌≡◌, ◌&&◌, not, Bool, true, false, List, [], ◌∷◌, ◌++◌, Option, some, Bool-cases,
  Option-cases, inl, inr, arith, refl, sym, ◌∙◌, count_if,
}
use mella_dashboard.Trading.Pricing.{Price, Quote, StopTrigger, stop_exit_price}
use mella_dashboard.Trading.Engine.{
  EnginePosition, EnginePending, Job, close_position, trigger_pending, execute_breach, Context,
  mark_position, stop_fired, position_on_tick, positions_on_tick, pending_on_tick, pendings_on_tick,
}

-- A job that closes the position, and one that breaches the account.
abbrev pub is_close : ℕ → Job → Bool
is_close id (close_position i price trigger q) = i == id
is_close id (trigger_pending i q) = false
is_close id (execute_breach reason e) = false

abbrev pub is_trigger : ℕ → Job → Bool
is_trigger id (close_position i price trigger q) = false
is_trigger id (trigger_pending i q) = i == id
is_trigger id (execute_breach reason e) = false

abbrev pub is_breach : Job → Bool
is_breach (close_position i price trigger q) = false
is_breach (trigger_pending i q) = false
is_breach (execute_breach reason e) = true

-- A position of that number that may still fire, and an order that may.
abbrev pub can_close : ℕ → EnginePosition → Bool
can_close id p = p.id == id && not p.closing

abbrev pub can_trigger : ℕ → EnginePending → Bool
can_trigger id o = o.id == id && not o.triggering

pub count_if-append :
    {A : Type 0} (p : A → Bool) (xs ys : List A)
    → count_if p (xs ++ ys) ≡ count_if p xs + count_if p ys
count_if-append p [] ys = omega arith
count_if-append p (x ∷ xs) ys = omega (arith, count_if-append p xs ys)

mark_position-id :
    (c : Context) (p : EnginePosition) → (mark_position c.instrument c.rate c.quote p).id ≡ p.id
unfolding mark_position
mark_position-id c p = elim (Option-cases c.rate) [ inl e ↦ rw e refl | inr (r, e) ↦ rw e refl ]

mark_position-closing :
    (c : Context) (p : EnginePosition)
    → (mark_position c.instrument c.rate c.quote p).closing ≡ p.closing
unfolding mark_position
mark_position-closing c p = elim (Option-cases c.rate) [
  | inl e ↦ rw e refl
  | inr (r, e) ↦ rw e refl
]

stop_fired-closing :
    (q : Quote) (p : EnginePosition) (s : StopTrigger) → stop_fired q p ≡ some s → p.closing ≡ false
unfolding stop_fired
stop_fired-closing q p s h = elim (Bool-cases p.closing) [
  | inl e ↦ absurd (ground (arith, rw e at h))
  | inr e ↦ e
]

abbrev marked : Context → EnginePosition → EnginePosition
marked c p = mark_position c.instrument c.rate c.quote p

position_on_tick-closes :
    (c : Context) (armed : Bool) (id : ℕ) (p : EnginePosition)
    → let (q, jobs) = position_on_tick c armed p in
      count_if (is_close id) jobs + count_if (can_close id) (q ∷ [])
      ≡ count_if (can_close id) (p ∷ [])
unfolding position_on_tick
position_on_tick-closes c armed id p = elim (Bool-cases (p.symbol == c.symbol)) [
  | inr e ↦ rw e (omega arith)
  | inl e ↦ elim (Bool-cases armed) [
    | inr f ↦ rw (e, f, mark_position-id c p, mark_position-closing c p) (omega arith)
    | inl f ↦ elim (Option-cases (stop_fired c.quote (marked c p))) [
      | inl g ↦ rw (e, f, g, mark_position-id c p, mark_position-closing c p) (omega arith)
      | inr (s, g) ↦
          rw
            (
              e,
              f,
              g,
              mark_position-id c p,
              sym (mark_position-closing c p) ∙ stop_fired-closing c.quote (marked c p) s g,
            )
            (ground arith)
    ]
  ]
]

pub positions_on_tick-closes :
    (c : Context) (armed : Bool) (id : ℕ) (ps : List EnginePosition)
    → let (qs, jobs) = positions_on_tick c armed ps in
      count_if (is_close id) jobs + count_if (can_close id) qs ≡ count_if (can_close id) ps
unfolding positions_on_tick
positions_on_tick-closes c armed id [] = refl
positions_on_tick-closes c armed id (p ∷ ps) = omega (
  arith,
  position_on_tick-closes c armed id p,
  positions_on_tick-closes c armed id ps,
  count_if-append (is_close id) (position_on_tick c armed p).1 (positions_on_tick c armed ps).1,
)

pub pendings_on_tick-triggers :
    (c : Context) (armed : Bool) (id : ℕ) (os : List EnginePending)
    → let (rs, jobs) = pendings_on_tick c armed os in
      count_if (is_trigger id) jobs + count_if (can_trigger id) rs ≡ count_if (can_trigger id) os
unfolding pendings_on_tick pending_on_tick
pendings_on_tick-triggers c armed id [] = refl
pendings_on_tick-triggers c armed id (o ∷ os) =
    ground (arith, pendings_on_tick-triggers c armed id os)

-- A test that no closing job passes counts none of the stops, and one that no order's job passes
-- none of the orders.
position_on_tick-others :
    (c : Context) (armed : Bool) (test : Job → Bool) (p : EnginePosition)
    → ((id : ℕ) (price : Option Price) (s : StopTrigger) (q : Quote)
        → test (close_position id price s q) ≡ false)
    → count_if test (position_on_tick c armed p).1 ≡ 0
unfolding position_on_tick
position_on_tick-others c armed test p h = elim (Bool-cases (p.symbol == c.symbol)) [
  | inr e ↦ rw e refl
  | inl e ↦ elim (Bool-cases armed) [
    | inr f ↦ rw (e, f) refl
    | inl f ↦ elim (Option-cases (stop_fired c.quote (marked c p))) [
      | inl g ↦ rw (e, f, g) refl
      | inr (s, g) ↦
          rw (e, f, g, h p.id (stop_exit_price s p.stop_loss p.take_profit) s c.quote) (omega arith)
    ]
  ]
]

pub positions_on_tick-others :
    (c : Context) (armed : Bool) (test : Job → Bool) (ps : List EnginePosition)
    → ((id : ℕ) (price : Option Price) (s : StopTrigger) (q : Quote)
        → test (close_position id price s q) ≡ false)
    → count_if test (positions_on_tick c armed ps).1 ≡ 0
unfolding positions_on_tick
positions_on_tick-others c armed test [] h = refl
positions_on_tick-others c armed test (p ∷ ps) h = omega (
  arith,
  position_on_tick-others c armed test p h,
  positions_on_tick-others c armed test ps h,
  count_if-append test (position_on_tick c armed p).1 (positions_on_tick c armed ps).1,
)

pub pendings_on_tick-others :
    (c : Context) (armed : Bool) (test : Job → Bool) (os : List EnginePending)
    → ((id : ℕ) (q : Quote) → test (trigger_pending id q) ≡ false)
    → count_if test (pendings_on_tick c armed os).1 ≡ 0
unfolding pendings_on_tick pending_on_tick
pendings_on_tick-others c armed test [] h = refl
pendings_on_tick-others c armed test (o ∷ os) h =
    ground (arith, h o.id c.quote, pendings_on_tick-others c armed test os h)
