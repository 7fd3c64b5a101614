-- ===== src/Services/Referrals/Bounds.antt =====
-- What a reward of src/lib/services/referrals.ts can be.
use mella_dashboard.Base.{
  ℕ, ◌+◌, ◌≤◌, ◌≡◌, ◌≢◌, ◌⊎◌, ==_iff, refl, sym, ◌∙◌, pos, negsuc, ◌*ℤ◌, ◌≤ℤ◌, ltb_ℤ, true, none,
  some, arith, lookup, Bool-cases, Option-cases, inl, inr, pos_part,
}
use native.Mathlib.Nat.{mul-le-mul_left}
use mathlib.Core.Option.{some-injective}
use mella_dashboard.Money.{Amount, Percent, round_percent_of, round_currency_quot, round_half_up}
use mella_dashboard.Services.Referrals.{
  ReferralReward, ReferralBook, Setting, pending, create_reward, new_reward, referrer_of,
  get_commission_percent, max_commission,
}

-- The commission is never negative and never above 50%, whatever is stored.
pub commission_bounds :
    (s : Setting)
    → (pos 0 ≤ℤ get_commission_percent s) × (get_commission_percent s ≤ℤ max_commission)
unfolding get_commission_percent
commission_bounds s = ground arith

-- A share of at most a half, rounded.
half_share :
    (v : Amount) (p : Percent)
    → pos 0 ≤ℤ v
    → pos 0 ≤ℤ p
    → p ≤ℤ max_commission
    → let r = round_percent_of v p in pos_part r + pos_part r ≤ pos_part v + 10_000
unfolding round_percent_of round_currency_quot round_half_up ◌*ℤ◌
half_share (pos n) (pos q) h k l =
    let m = mul-le-mul_left n (let e : q ≤ 5000 = omega arith in e) in ground (arith, m)
half_share (pos n) (negsuc q) h k l = absurd (omega arith)
half_share (negsuc n) p h k l = absurd (omega arith)

referrer-other : (user r : ℕ) (b : ReferralBook) → referrer_of user b ≡ some r → r ≢ user
unfolding referrer_of
referrer-other user r b h = ground arith

-- The row that `create_reward` may add.
abbrev fresh_reward : ℕ → ℕ → Amount → ReferralBook → ReferralReward
fresh_reward referrer user v b =
    let percent = get_commission_percent b.commission in
    new_reward referrer user percent (round_percent_of v percent)

-- A purchase with no reward gets none, or one for the buyer's referrer that is positive.
create_reward-cases :
    (purchase user : ℕ) (v : Amount) (b : ReferralBook)
    → lookup purchase b.rewards ≡ none
    → (lookup purchase (create_reward purchase user v b).rewards ≡ none)
      ⊎ ((referrer : ℕ) × (referrer_of user b ≡ some referrer)
          × (ltb_ℤ (pos 0) v ≡ true)
          × (ltb_ℤ (pos 0) (fresh_reward referrer user v b).amount ≡ true)
          × (lookup purchase (create_reward purchase user v b).rewards
              ≡ some (fresh_reward referrer user v b)))
unfolding create_reward new_reward lookup
create_reward-cases purchase user v b h = elim (Bool-cases (ltb_ℤ (pos 0) v)) [
  | inr e ↦ inl (rw e h)
  | inl e ↦ elim (Option-cases (referrer_of user b)) [
    | inl n ↦ inl (rw e (rw (n, create_reward) h))
    | inr (referrer, f) ↦
        elim (Bool-cases (ltb_ℤ (pos 0) (fresh_reward referrer user v b).amount)) [
          | inr z ↦ inl (rw e (rw (f, create_reward) (rw z h)))
          | inl g ↦ inr (
            referrer,
            f,
            e,
            g,
            rw e
                (rw (f, create_reward) (rw g (rw h (rw ((==_iff purchase purchase).1 refl) refl)))),
          )
        ]
  ]
]

-- A new reward is positive and pending, for someone other than the buyer, and at most half of what the
-- buyer paid, up to the rounding to a cent.
pub create_reward_bounds :
    (purchase user : ℕ) (v : Amount) (b : ReferralBook) (r : ReferralReward)
    → lookup purchase b.rewards ≡ none
    → lookup purchase (create_reward purchase user v b).rewards ≡ some r
    → (ltb_ℤ (pos 0) r.amount ≡ true)
      × (pos_part r.amount + pos_part r.amount ≤ pos_part v + 10_000)
      × (r.referrer ≢ user)
      × (r.referred_user ≡ user)
      × (r.status ≡ pending)
unfolding new_reward
create_reward_bounds purchase user v b r h k = elim (create_reward-cases purchase user v b h) [
  | inl e ↦ let clash : none ≡ some r = sym e ∙ k in cc
  | inr (referrer, f, paid, positive, e) ↦
      let same : fresh_reward referrer user v b ≡ r = some-injective _ _ (sym e ∙ k) in
      let (low, high) = commission_bounds b.commission in
      rw (sym same) (
        positive,
        half_share v (get_commission_percent b.commission) (ground (arith, paid)) low high,
        referrer-other user referrer b f,
        refl,
        refl,
      )
]
