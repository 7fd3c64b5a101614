-- ===== src/Trading/Pricing/Volume.antt =====
-- Volumes that `validateVolume` accepts, and `roundVolume`.
use mella_dashboard.Base.{ℕ, ◌+◌, ◌-◌, ◌*◌, ◌/◌, ◌%◌, ◌≤◌, ◌≡◌, pos, none, arith, ap, ◌∙◌, min, sym}
use native.Mathlib.Nat.{div-add-mod, mod-lt}
use native.Mathlib.Decide.{dec_le}
use mella_dashboard.Trading.Pricing.{
  VolumeRules, finite, validate_volume, round_volume, round_to, step_of, hundredth,
}

-- Rounding finds the multiple of a hundredth that is near enough.
near :
    (v n : ℕ)
    → (v ≤ n * hundredth + 40_000_000)
    → n * hundredth ≤ v + 40_000_000
    → round_volume (pos v) ≡ pos (n * hundredth)
unfolding round_volume round_to
near v n h k =
    let e : (2 * v + hundredth) / (2 * hundredth) ≡ n = omega arith in
    ap (λ m. pos (m * hundredth)) e

accepted :
    (r : VolumeRules) (v : ℕ)
    → validate_volume (finite (pos v)) r ≡ none
    → (r.min_volume ≤ v + 10)
      × (v ≤ r.max_volume + 10)
      × (min (v % step_of r) (step_of r - v % step_of r) * 1_000_000 ≤ step_of r)
unfolding validate_volume
accepted r v h = ground arith

multiple :
    (v step t n : ℕ)
    → step ≡ t * hundredth
    → v ≤ n * step + 40_000_000
    → n * step ≤ v + 40_000_000
    → round_volume (pos v) ≡ pos (n * step)
multiple v step t n s h k =
    let e : n * step ≡ n * t * hundredth = omega (arith, ap (λ m. n * m) s) in
    near v (n * t) (omega arith) (omega arith) ∙ ap pos (sym e)

nearest :
    (v step t : ℕ)
    → step ≡ t * hundredth
    → 1 ≤ t
    → t ≤ 400_000
    → min (v % step) (step - v % step) * 1_000_000 ≤ step
    → (n : ℕ) × (round_volume (pos v) ≡ pos (n * step))
nearest v step t s p b grid =
    let whole = div-add-mod v step in
    let lower = mod-lt v {m = step} (omega arith) in
    elim (dec_le (v % step) (step - v % step)) [
      | yes h ↦ (v / step, multiple v step t (v / step) s (omega arith) (omega arith))
      | no h ↦ (v / step + 1, multiple v step t (v / step + 1) s (omega arith) (omega arith))
    ]

-- An accepted volume lies in the instrument's range, up to 10^-9 lots; and where the step is a whole
-- number of hundredths of a lot, at most 4000 lots, it is rounded to an exact multiple of the step.
pub validate_volume-rounds :
    (r : VolumeRules) (v t : ℕ)
    → step_of r ≡ t * hundredth
    → 1 ≤ t
    → t ≤ 400_000
    → validate_volume (finite (pos v)) r ≡ none
    → (n : ℕ) × (round_volume (pos v) ≡ pos (n * step_of r))
      × (r.min_volume ≤ v + 10)
      × (v ≤ r.max_volume + 10)
validate_volume-rounds r v t s p b h =
    let (low, high, grid) = accepted r v h in
    let (n, e) = nearest v (step_of r) t s p b grid in (n, e, low, high)
