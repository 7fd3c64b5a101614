-- ===== src/Trading/Engine/Once.antt =====
-- A price never queues the same work twice, src/trading/engine.ts.
use mella_dashboard.Base.{
  ℕ, ◌+◌, ◌==◌, ◌≡◌, ◌&&◌, not, Bool, false, List, [], ◌∷◌, ◌++◌, if◌then◌else◌, Bool-cases,
  Option-cases, inl, inr, arith, refl, ap, ◌∙◌, any, count_if,
}
use mella_dashboard.Trading.Engine.{
  Job, execute_breach, Tracked, Context, positions_on_tick, pendings_on_tick, recompute,
  holds_stale_symbol, breach_reason, check_breach, fire, review, account_on_tick,
}
use mella_dashboard.Money.{round_currency}
use mella_dashboard.Trading.Engine.Equity.{recompute-breaching}
use mella_dashboard.Trading.Engine.Loops.{
  is_close, is_trigger, is_breach, can_close, can_trigger, count_if-append,
  positions_on_tick-closes, pendings_on_tick-triggers, positions_on_tick-others,
  pendings_on_tick-others,
}

-- The prices of a period, in the order in which they arrive.
unfoldable pub run : List Context → Tracked → Tracked
run [] t = t
run (c ∷ cs) t = run cs (account_on_tick c t)

-- The jobs on the queue and the work that may still be queued: for a position, for an order, and for
-- the account.
abbrev pub closes : ℕ → Tracked → ℕ
closes id t = count_if (is_close id) t.queue + count_if (can_close id) t.account.positions

abbrev pub triggers : ℕ → Tracked → ℕ
triggers id t = count_if (is_trigger id) t.queue + count_if (can_trigger id) t.account.pending

abbrev pub breaches : Tracked → ℕ
breaches t = count_if is_breach t.queue + (if t.account.breaching then 0 else 1)

abbrev IsKept : ℕ → Tracked → Tracked → Type 0
IsKept id t u =
    (closes id u ≡ closes id t) × (triggers id u ≡ triggers id t) × (breaches u ≡ breaches t)

IsKept-trans : (id : ℕ) (t u v : Tracked) → IsKept id t u → IsKept id u v → IsKept id t v
IsKept-trans id t u v (a, b, c) (d, e, f) = (d ∙ a, e ∙ b, f ∙ c)

abbrev armed : Context → Tracked → Bool
armed c t = c.is_open && not t.account.breaching

abbrev stops : Context → Tracked → List Job
stops c t = (positions_on_tick c (armed c t) t.account.positions).1

abbrev orders : Context → Tracked → List Job
orders c t =
    (pendings_on_tick c (armed c t && not (c.restricted t.account.snapshot)) t.account.pending).1

fire-queue :
    (c : Context) (test : Job → Bool) (t : Tracked)
    → count_if test (fire c t).queue
      ≡ count_if test t.queue + count_if test (stops c t) + count_if test (orders c t)
unfolding fire
fire-queue c test t =
    count_if-append test (t.queue ++ stops c t) (orders c t)
    ∙ ap (λ n. n + count_if test (orders c t)) (count_if-append test t.queue (stops c t))

fire-IsKept : (c : Context) (id : ℕ) (t : Tracked) → IsKept id t (fire c t)
unfolding fire
fire-IsKept c id t = (
  omega (
    arith,
    fire-queue c (is_close id) t,
    positions_on_tick-closes c (armed c t) id t.account.positions,
    pendings_on_tick-others c _ (is_close id) t.account.pending (λ i q. refl),
  ),
  omega (
    arith,
    fire-queue c (is_trigger id) t,
    positions_on_tick-others c _ (is_trigger id) t.account.positions (λ i p s q. refl),
    pendings_on_tick-triggers c (armed c t && not (c.restricted t.account.snapshot)) id
        t.account.pending,
  ),
  omega (
    arith,
    fire-queue c is_breach t,
    positions_on_tick-others c _ is_breach t.account.positions (λ i p s q. refl),
    pendings_on_tick-others c _ is_breach t.account.pending (λ i q. refl),
  ),
)

abbrev recomputed : Tracked → Tracked
recomputed t = record t { account = recompute t.account }

recompute-IsKept : (id : ℕ) (t : Tracked) → IsKept id t (recomputed t)
unfolding recompute
recompute-IsKept id t = (refl, refl, refl)

check_breach-IsKept :
    (id : ℕ) (t : Tracked) → t.account.breaching ≡ false → IsKept id t (check_breach t)
unfolding check_breach
check_breach-IsKept id t h = elim (Option-cases (breach_reason t.account)) [
  | inl e ↦ rw (check_breach, e) (refl, refl, refl)
  | inr (r, e) ↦
      rw (check_breach, e)
        (
          omega (
            arith,
            count_if-append (is_close id) t.queue
                (execute_breach r (round_currency t.account.equity) ∷ []),
          ),
          omega (
            arith,
            count_if-append (is_trigger id) t.queue
                (execute_breach r (round_currency t.account.equity) ∷ []),
          ),
          ground (
            arith,
            h,
            count_if-append is_breach t.queue
                (execute_breach r (round_currency t.account.equity) ∷ []),
          ),
        )
]

review-IsKept : (c : Context) (id : ℕ) (t : Tracked) → IsKept id t (review c t)
unfolding review
review-IsKept c id t =
    elim (Bool-cases
      (c.is_open && not t.account.breaching && not (holds_stale_symbol c.stale t.account))) [
        | inl e ↦ rw e (
            IsKept-trans id t (recomputed t) (check_breach (recomputed t)) (recompute-IsKept id t) (
              check_breach-IsKept id (recomputed t) (recompute-breaching t.account ∙ ground arith)))
        | inr e ↦ rw e (recompute-IsKept id t)
      ]

account_on_tick-IsKept : (c : Context) (id : ℕ) (t : Tracked) → IsKept id t (account_on_tick c t)
unfolding account_on_tick
account_on_tick-IsKept c id t =
    elim (Bool-cases (any (λ p. p.symbol == c.symbol) t.account.positions)) [
      | inl e ↦ rw e (
          IsKept-trans id t (fire c t) (review c (fire c t)) (fire-IsKept c id t)
            (review-IsKept c id (fire c t)))
      | inr e ↦ rw e (fire-IsKept c id t)
    ]

-- Over any prices, every job that closes a position, triggers an order or breaches the account uses
-- up the one chance there was: the jobs of a position on the queue and the positions of that number
-- that are not closing stay the same number together, so do those of an order, and so do the breach
-- jobs and the account that is not breaching.
pub run-once :
    (cs : List Context) (id : ℕ) (t : Tracked)
    → (closes id (run cs t) ≡ closes id t)
      × (triggers id (run cs t) ≡ triggers id t)
      × (breaches (run cs t) ≡ breaches t)
unfolding run
run-once [] id t = (refl, refl, refl)
run-once (c ∷ cs) id t =
    IsKept-trans id t (account_on_tick c t) (run cs (account_on_tick c t))
      (account_on_tick-IsKept c id t) (run-once cs id (account_on_tick c t))
