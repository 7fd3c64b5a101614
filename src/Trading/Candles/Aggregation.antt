-- ===== src/Trading/Candles/Aggregation.antt =====
-- A bar of a longer timeframe, derived tick by tick and from the 1m bars.
use mella_dashboard.Base.{
  ℕ, ◌*◌, ◌/◌, ◌≤◌, ◌≡◌, refl, sym, ap, ◌∙◌, ltb, ◌==◌, ==_iff, false, none, some, List, [], ◌∷◌,
  if◌then◌else◌, arith, Bool-cases, inl, inr,
}
use mathlib.Core.Path.{subst}
use native.Mathlib.Nat.{div-div-eq-div-mul}
use mella_dashboard.Trading.Candles.{
  Bar, Timeframe, bucket_start, new_bar, merge_into, combine, start_bar, add_bar, tick_bar, head?,
}

-- The length of a timeframe of `k` minutes divides into whole minutes.
pub bucket_start-minute :
    (ts k : ℕ) → bucket_start (bucket_start ts 60) (60 * k) ≡ bucket_start ts (60 * k)
unfolding bucket_start
bucket_start-minute ts k =
    let minutes = ts / 60_000 * 60_000 in
    let length : 60 * k * 1000 ≡ 60_000 * k = omega arith in
    let whole : minutes / 60_000 ≡ ts / 60_000 = omega arith in
    let parts : minutes / (60_000 * k) ≡ ts / (60_000 * k) =
      sym (div-div-eq-div-mul minutes 60_000 k)
      ∙ ap (λ m. m / k) whole
      ∙ div-div-eq-div-mul ts 60_000 k in
    rw length (ap (λ m. m * (60_000 * k)) parts)

pub bucket_start_mono : (a b tf : ℕ) → a ≤ b → bucket_start a tf ≤ bucket_start b tf
unfolding bucket_start
bucket_start_mono a b tf h = grind (arith)

-- The 1m bars of a stream, newest first, after one more tick that is not older than the last bar.
unfoldable pub push_tick : ℕ → ℕ → List Bar → List Bar
push_tick ts price [] = new_bar (bucket_start ts 60) price ∷ []
push_tick ts price (m ∷ ms) =
    if m.time == bucket_start ts 60
    then merge_into m price ∷ ms
    else new_bar (bucket_start ts 60) price ∷ m ∷ ms

-- `aggregateBars` over 1m bars that stand newest first.
unfoldable pub aggregate : Timeframe → List Bar → List Bar
aggregate tf [] = []
aggregate tf (m ∷ ms) = add_bar tf m (aggregate tf ms)

-- A list whose first element is changed.
abbrev pub on_first : (Bar → Bar) → List Bar → List Bar
on_first f [] = []
on_first f (b ∷ bs) = f b ∷ bs

-- The first element is a bar of the bucket.
abbrev pub Starts : ℕ → List Bar → Type 0
Starts time [] = ⊥
Starts time (b ∷ bs) = b.time ≡ time

add_bar-Starts :
    (tf : ℕ) (m : Bar) (out : List Bar) → Starts (bucket_start m.time tf) (add_bar tf m out)
unfolding add_bar start_bar combine
add_bar-Starts tf m [] = refl
add_bar-Starts tf m (last ∷ more) = elim (Bool-cases (last.time == bucket_start m.time tf)) [
  | inl e ↦ rw e ((==_iff last.time (bucket_start m.time tf)).0 e)
  | inr n ↦ rw n refl
]

combine-merge_into :
    (last m : Bar) (price : ℕ)
    → combine last (merge_into m price) ≡ merge_into (combine last m) price
unfolding combine merge_into
combine-merge_into last m price = ground arith

start_bar-merge_into :
    (tf price : ℕ) (m : Bar) → start_bar tf (merge_into m price) ≡ merge_into (start_bar tf m) price
unfolding start_bar merge_into
start_bar-merge_into tf price m = refl

pub merge_into-time : (m : Bar) (price : ℕ) → (merge_into m price).time ≡ m.time
unfolding merge_into
merge_into-time m price = refl

-- A tick merged into a 1m bar is merged into the longer bar.
add_bar-merge_into :
    (tf price : ℕ) (m : Bar) (out : List Bar)
    → add_bar tf (merge_into m price) out ≡ on_first (λ b. merge_into b price) (add_bar tf m out)
unfolding add_bar merge_into
add_bar-merge_into tf price m [] = ap (λ b. b ∷ []) (start_bar-merge_into tf price m)
add_bar-merge_into tf price m (last ∷ out) =
    elim (Bool-cases (last.time == bucket_start m.time tf)) [
      | inl e ↦
          rw (merge_into-time m price, e) (ap (λ b. b ∷ out) (combine-merge_into last m price))
      | inr n ↦
          rw (merge_into-time m price, n)
            (ap (λ b. b ∷ last ∷ out) (start_bar-merge_into tf price m))
    ]

-- The tick is not older than the last 1m bar, whose time is that of a minute.
abbrev pub Follows : ℕ → List Bar → Type 0
Follows ts [] = Unit
Follows ts (m ∷ ms) = (m.time ≤ bucket_start ts 60) × (m.time ≡ bucket_start m.time 60)

tick_bar-merged :
    (tf ts price : ℕ) (out : List Bar)
    → Starts (bucket_start ts tf) out
    → tick_bar tf ts price (head? out) ≡ head? (on_first (λ b. merge_into b price) out)
unfolding tick_bar
tick_bar-merged tf ts price [] s = absurd s
tick_bar-merged tf ts price (b ∷ bs) s = rw ((==_iff _ _).1 s) refl

combine-new_bar : (b : Bar) (time price : ℕ) → combine b (new_bar time price) ≡ merge_into b price
unfolding combine new_bar merge_into
combine-new_bar b time price = refl

start_bar-new_bar :
    (tf time price : ℕ) → start_bar tf (new_bar time price) ≡ new_bar (bucket_start time tf) price
unfolding start_bar new_bar
start_bar-new_bar tf time price = refl

pub new_bar-time : (time price : ℕ) → (new_bar time price).time ≡ time
unfolding new_bar
new_bar-time time price = refl

tick_bar-started :
    (tf ts price time : ℕ) (out : List Bar)
    → Starts time out
    → time ≤ bucket_start ts tf
    → bucket_start (bucket_start ts 60) tf ≡ bucket_start ts tf
    → tick_bar tf ts price (head? out) ≡ head? (add_bar tf (new_bar (bucket_start ts 60) price) out)
unfolding add_bar tick_bar new_bar
tick_bar-started tf ts price time [] s l e = absurd s
tick_bar-started tf ts price time (b ∷ bs) s l e =
    elim (Bool-cases (b.time == bucket_start ts tf)) [
      | inl same ↦
          rw (new_bar-time (bucket_start ts 60) price, e, same)
            (ap some (sym (combine-new_bar b (bucket_start ts 60) price)))
      | inr other ↦
          let late : ltb (bucket_start ts tf) b.time ≡ false = ground arith in
          rw (new_bar-time (bucket_start ts 60) price, e, other, late)
            (ap some
              (sym (start_bar-new_bar tf (bucket_start ts 60) price ∙ ap (λ t. new_bar t price) e)))
    ]

tick_bar-first :
    (k ts price : ℕ)
    → tick_bar (60 * k) ts price none
      ≡ head? (add_bar (60 * k) (new_bar (bucket_start ts 60) price) [])
unfolding tick_bar add_bar
tick_bar-first k ts price = ap some (
    ap (λ t. new_bar t price) (sym (bucket_start-minute ts k))
    ∙ sym (start_bar-new_bar (60 * k) (bucket_start ts 60) price))

-- What a tick makes of the last bar of a timeframe is the last bar of the 1m bars with that tick.
pub tick_bar-push_tick :
    (k ts price : ℕ) (ms : List Bar)
    → Follows ts ms
    → tick_bar (60 * k) ts price (head? (aggregate (60 * k) ms))
      ≡ head? (aggregate (60 * k) (push_tick ts price ms))
unfolding aggregate push_tick
tick_bar-push_tick k ts price [] f = tick_bar-first k ts price
tick_bar-push_tick k ts price (m ∷ ms) f = elim (Bool-cases (m.time == bucket_start ts 60)) [
  | inl e ↦ rw e (
      tick_bar-merged (60 * k) ts price (add_bar (60 * k) m (aggregate (60 * k) ms)) (
        subst (λ t. Starts t (add_bar (60 * k) m (aggregate (60 * k) ms)))
          (ap (λ t. bucket_start t (60 * k)) ((==_iff _ _).0 e) ∙ bucket_start-minute ts k)
          (add_bar-Starts (60 * k) m (aggregate (60 * k) ms)))
      ∙ ap head? (sym (add_bar-merge_into (60 * k) price m (aggregate (60 * k) ms))))
  | inr n ↦ rw n (
      tick_bar-started (60 * k) ts price (bucket_start m.time (60 * k))
        (add_bar (60 * k) m (aggregate (60 * k) ms))
        (add_bar-Starts (60 * k) m (aggregate (60 * k) ms))
        (rw (← bucket_start-minute ts k)
          (bucket_start_mono m.time (bucket_start ts 60) (60 * k) f.0))
        (bucket_start-minute ts k))
]
