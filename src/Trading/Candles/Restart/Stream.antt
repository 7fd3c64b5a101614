-- ===== src/Trading/Candles/Restart/Stream.antt =====
-- The 1m bars of a stream of ticks: their order, and what `aggregateBars` makes of them.
use mella_dashboard.Base.{
  ℕ, ◌≤◌, ◌<◌, ◌≡◌, refl, sym, ap, ◌∙◌, ltb, ◌==◌, false, List, [], ◌∷◌, ◌++◌, some, arith,
  Bool-cases, inl, inr, All,
}
use mathlib.Core.List.{reverse, reverse-append}
use mella_dashboard.Trading.Candles.{
  Bar, Timeframe, bucket_start, new_bar, merge_into, combine, start_bar, add_bar, aggregate_onto,
  sort_by_time, insert_by_time, head?,
}
use mella_dashboard.Trading.Candles.Aggregation.{
  aggregate, push_tick, Follows, bucket_start-minute, bucket_start_mono, merge_into-time,
  new_bar-time,
}

-- 1m bars, newest first: each at a minute's start, and later than the one before it.
abbrev pub Minutes : List Bar → Type 0
Minutes [] = Unit
Minutes (m ∷ ms) = (m.time ≡ bucket_start m.time 60) × All (λ n. n.time < m.time) ms × Minutes ms

All-before :
    (low high : ℕ) (ms : List Bar)
    → low < high
    → All (λ (n : Bar). n.time < low) ms
    → All (λ (n : Bar). n.time < high) ms
All-before low high [] l a = tt
All-before low high (m ∷ ms) l a = (omega arith, All-before low high ms l a.1)

new_bar-minute :
    (ts price : ℕ)
    → let b = new_bar (bucket_start ts 60) price in
      (b.time ≤ bucket_start ts 60) × (b.time ≡ bucket_start b.time 60)
unfolding new_bar
new_bar-minute ts price = (omega arith, sym (bucket_start-minute ts 1))

pub push_tick-Minutes :
    (ts price : ℕ) (ms : List Bar) → Follows ts ms → Minutes ms → Minutes (push_tick ts price ms)
unfolding push_tick
push_tick-Minutes ts price [] f m = ((new_bar-minute ts price).1, tt, tt)
push_tick-Minutes ts price (b ∷ bs) f m = elim (Bool-cases (b.time == bucket_start ts 60)) [
  | inl e ↦ rw (e, merge_into-time b price) m
  | inr n ↦
      let later : b.time < (new_bar (bucket_start ts 60) price).time =
        rw (new_bar-time (bucket_start ts 60) price) (ground arith) in
      rw n ((new_bar-minute ts price).1, (later, All-before b.time _ bs later m.1), m)
]

pub push_tick-Follows :
    (ts price : ℕ) (ms : List Bar) → Follows ts ms → Follows ts (push_tick ts price ms)
unfolding push_tick
push_tick-Follows ts price [] f = new_bar-minute ts price
push_tick-Follows ts price (b ∷ bs) f = elim (Bool-cases (b.time == bucket_start ts 60)) [
  | inl e ↦ rw (e, merge_into-time b price) f
  | inr n ↦ rw n (new_bar-minute ts price)
]

pub Follows-later : (low ts : ℕ) (ms : List Bar) → low ≤ ts → Follows low ms → Follows ts ms
Follows-later low ts [] l f = tt
Follows-later low ts (m ∷ ms) l f = (omega (arith, bucket_start_mono low ts 60 l), f.1)

start_bar-minute : (b : Bar) → b.time ≡ bucket_start b.time 60 → start_bar 60 b ≡ b
unfolding start_bar
start_bar-minute b h = λ i. record b { time = sym h i }

add_bar-minute : (b : Bar) (bs : List Bar) → Minutes (b ∷ bs) → add_bar 60 b bs ≡ b ∷ bs
unfolding add_bar
add_bar-minute b [] m = ap (λ c. c ∷ []) (start_bar-minute b m.0)
add_bar-minute b (c ∷ cs) m =
    let apart : (c.time == bucket_start b.time 60) ≡ false = rw (← m.0) (ground arith) in
    rw apart (ap (λ d. d ∷ c ∷ cs) (start_bar-minute b m.0))

-- Taken minute by minute, the 1m bars are their own aggregate.
pub aggregate-Minutes : (ms : List Bar) → Minutes ms → aggregate 60 ms ≡ ms
unfolding aggregate
aggregate-Minutes [] m = refl
aggregate-Minutes (b ∷ bs) m = ap (add_bar 60 b) (aggregate-Minutes bs m.2) ∙ add_bar-minute b bs m

aggregate_onto-append :
    (tf : Timeframe) (out xs ys : List Bar)
    → aggregate_onto tf out (xs ++ ys) ≡ aggregate_onto tf (aggregate_onto tf out xs) ys
unfolding aggregate_onto
aggregate_onto-append tf out [] ys = refl
aggregate_onto-append tf out (x ∷ xs) ys = aggregate_onto-append tf (add_bar tf x out) xs ys

pub aggregate_onto-reverse :
    (tf : Timeframe) (ms : List Bar) → aggregate_onto tf [] (reverse ms) ≡ aggregate tf ms
unfolding aggregate_onto aggregate
aggregate_onto-reverse tf [] = refl
aggregate_onto-reverse tf (m ∷ ms) =
    ap (aggregate_onto tf []) (reverse-append (m ∷ []) ms)
    ∙ aggregate_onto-append tf [] (reverse ms) (m ∷ [])
    ∙ ap (add_bar tf m) (aggregate_onto-reverse tf ms)

abbrev Rising : List Bar → Type 0
Rising [] = Unit
Rising (b ∷ bs) = All (λ n. b.time < n.time) bs × Rising bs

insert_by_time-first :
    (b : Bar) (bs : List Bar) → All (λ (n : Bar). b.time < n.time) bs → insert_by_time b bs ≡ b ∷ bs
unfolding insert_by_time
insert_by_time-first b [] a = refl
insert_by_time-first b (c ∷ cs) a =
    let after : ltb c.time b.time ≡ false = ground arith in rw after refl

sort_by_time-Rising : (bs : List Bar) → Rising bs → sort_by_time bs ≡ bs
unfolding sort_by_time
sort_by_time-Rising [] r = refl
sort_by_time-Rising (b ∷ bs) r =
    ap (insert_by_time b) (sort_by_time-Rising bs r.1) ∙ insert_by_time-first b bs r.0

All-append : (P : Bar → Type 0) (xs ys : List Bar) → All P xs → All P ys → All P (xs ++ ys)
All-append P [] ys a b = b
All-append P (x ∷ xs) ys a b = (a.0, All-append P xs ys a.1 b)

All-reverse : (P : Bar → Type 0) (xs : List Bar) → All P xs → All P (reverse xs)
All-reverse P [] a = a
All-reverse P (x ∷ xs) a =
    rw (reverse-append (x ∷ []) xs)
      (All-append P (reverse xs) (x ∷ []) (All-reverse P xs a.1) (a.0, tt))

Rising-append :
    (m : Bar) (xs : List Bar)
    → Rising xs
    → All (λ (n : Bar). n.time < m.time) xs
    → Rising (xs ++ m ∷ [])
Rising-append m [] r a = (tt, tt)
Rising-append m (x ∷ xs) r a =
    (All-append (λ n. x.time < n.time) xs (m ∷ []) r.0 (a.0, tt), Rising-append m xs r.1 a.1)

Rising-reverse : (ms : List Bar) → Minutes ms → Rising (reverse ms)
Rising-reverse [] m = tt
Rising-reverse (b ∷ bs) m = rw (reverse-append (b ∷ []) bs) (
    Rising-append b (reverse bs) (Rising-reverse bs m.2)
      (All-reverse (λ n. n.time < b.time) bs m.1))

-- Bars in the order of their times stay as they are.
pub sort_by_time-reverse : (ms : List Bar) → Minutes ms → sort_by_time (reverse ms) ≡ reverse ms
sort_by_time-reverse ms m = sort_by_time-Rising (reverse ms) (Rising-reverse ms m)

pub aggregate-head :
    (tf : Timeframe) (m : Bar) (out : List Bar) → (b : Bar) × (head? (add_bar tf m out) ≡ some b)
unfolding add_bar
aggregate-head tf m [] = (start_bar tf m, refl)
aggregate-head tf m (c ∷ cs) = elim (Bool-cases (c.time == bucket_start m.time tf)) [
  | inl e ↦ (combine c m, rw e refl)
  | inr n ↦ (start_bar tf m, rw n refl)
]

-- After a tick every timeframe has a bar.
pub push_tick-head :
    (tf : Timeframe) (ts price : ℕ) (ms : List Bar)
    → (b : Bar) × (head? (aggregate tf (push_tick ts price ms)) ≡ some b)
unfolding push_tick aggregate
push_tick-head tf ts price [] = aggregate-head tf _ []
push_tick-head tf ts price (m ∷ ms) = elim (Bool-cases (m.time == bucket_start ts 60)) [
  | inl e ↦ let (b, h) = aggregate-head tf (merge_into m price) (aggregate tf ms) in (b, rw e h)
  | inr n ↦
      let (b, h) =
        aggregate-head tf (new_bar (bucket_start ts 60) price) (add_bar tf m (aggregate tf ms)) in
      (b, rw n h)
]
