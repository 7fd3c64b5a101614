-- ===== src/Services/Referrals.antt =====
-- src/lib/services/referrals.ts: who referred whom, the reward of a paid purchase, and the decisions
-- on it. A reward stands under its purchase, which is unique. Codes are numbers here, texts in Codes.
pub mod Deciding
pub mod Codes
pub mod Bounds
mod Examples
use mella_dashboard.Base.{
  ℕ, ◌==◌, pos, abs, ltb_ℤ, Bool, true, false, not, ◌||◌, Option, none, some, List, [], ◌∷◌,
  is_some, if◌then◌else◌, lookup, insert,
}
use mella_dashboard.Money.{Amount, Percent, cent, round_half_up, round_percent_of}
use mella_dashboard.Services.Store.{
  Note, referral_attached, reward_created, reward_voided, reward_paid_but_reversed, told_user,
}

pub data RewardStatus : Type 0 where
  pending approved paid void : RewardStatus

pub record ReferralReward : Type 0 where
  pub referrer : ℕ
  pub referred_user : ℕ
  pub percent : Percent
  pub amount : Amount
  pub status : RewardStatus
  pub approved_by : Option ℕ
  pub paid_by : Option ℕ

-- The columns of a user that referrals read.
pub record User : Type 0 where
  pub referral_code : Option ℕ
  pub referred_by : Option ℕ
  pub is_active : Bool

-- A setting that is stored, as a number that is finite or is not.
pub data Setting : Type 0 where
  unset : Setting
  no_number : Setting
  number : Percent → Setting

-- The debit of a reward that was paid, under its unique key.
pub record RewardDebit : Type 0 where
  pub purchase : ℕ
  pub amount : Amount

pub record ReferralBook : Type 0 where
  pub users : List (ℕ × User)
  pub rewards : List (ℕ × ReferralReward)
  pub commission : Setting
  pub debits : List RewardDebit
  pub notes : List Note

abbrev has_code : ℕ → User → Bool
has_code code u = elim u.referral_code [ none ↦ false | some c ↦ c == code ]

-- `findUnique` on the referral code.
unfoldable pub find_referrer : ℕ → List (ℕ × User) → Option (ℕ × User)
find_referrer code [] = none
find_referrer code (u ∷ us) =
    let rest = find_referrer code us in if has_code code u.1 then some u else rest

-- The conditional write of `referredById`.
unfoldable pub claim_referrer : ℕ → ℕ → ReferralBook → ReferralBook
claim_referrer new_user referrer b = elim (lookup new_user b.users) [
  | none ↦ b
  | some u ↦ if is_some u.referred_by then b else record b {
    users = insert new_user (record u { referred_by = some referrer }) b.users;
    notes = referral_attached new_user ∷ b.notes;
  }
]

-- `attachReferral` with a code that is normalized.
unfoldable pub attach_referral : ℕ → Option ℕ → ReferralBook → ReferralBook
attach_referral new_user none b = b
attach_referral new_user (some code) b = elim (find_referrer code b.users) [
  | none ↦ b
  | some (id, u) ↦ if id == new_user || not u.is_active then b else claim_referrer new_user id b
]

-- `MAX_REFERRAL_COMMISSION_PERCENT` and the default, in hundredths of a percent.
abbrev pub max_commission : Percent
max_commission = pos 5000

abbrev pub default_commission : Percent
default_commission = pos 1000

abbrev pub is_out_of_range : Percent → Bool
is_out_of_range p = ltb_ℤ p (pos 0) || ltb_ℤ max_commission p

unfoldable pub get_commission_percent : Setting → Percent
get_commission_percent unset = default_commission
get_commission_percent no_number = default_commission
get_commission_percent (number p) = if is_out_of_range p then default_commission else p

-- `setReferralCommissionPercent`: none is refused. The percentage given is in millionths of a percent.
unfoldable pub set_commission_percent : Option Amount → ReferralBook → Option ReferralBook
set_commission_percent none b = none
set_commission_percent (some v) b =
    if ltb_ℤ v (pos 0) || ltb_ℤ (pos 50_000_000) v
    then none
    else some (record b { commission = number (pos (round_half_up (abs v) cent)) })

unfoldable pub new_reward : ℕ → ℕ → Percent → Amount → ReferralReward
new_reward referrer user percent amount = record {
  referrer = referrer;
  referred_user = user;
  percent = percent;
  amount = amount;
  status = pending;
  approved_by = none;
  paid_by = none;
}

-- `referredById` of the buyer, unless it is the buyer.
unfoldable pub referrer_of : ℕ → ReferralBook → Option ℕ
referrer_of user b = elim (lookup user b.users) [
  | none ↦ none
  | some u ↦ elim u.referred_by [ none ↦ none | some r ↦ if r == user then none else some r ]
]

-- `createReferralRewardForPurchase`: a second reward of a purchase is skipped.
unfoldable pub create_reward : ℕ → ℕ → Amount → ReferralBook → ReferralBook
create_reward purchase user paid_amount b =
    if ltb_ℤ (pos 0) paid_amount
    then elim (referrer_of user b) [
      | none ↦ b
      | some referrer ↦
          let percent = get_commission_percent b.commission in
          let amount = round_percent_of paid_amount percent in
          if not (ltb_ℤ (pos 0) amount) || is_some (lookup purchase b.rewards)
          then b
          else record b {
            rewards = (purchase, new_reward referrer user percent amount) ∷ b.rewards;
            notes = told_user referrer ∷ reward_created purchase ∷ b.notes;
          }
    ]
    else b

-- `voidReferralRewardForPurchase`: a reward that was paid is only flagged.
unfoldable pub void_reward : ℕ → ReferralBook → ReferralBook
void_reward purchase b = elim (lookup purchase b.rewards) [
  | none ↦ b
  | some r ↦ elim r.status [
    | void ↦ b
    | paid ↦ record b { notes = reward_paid_but_reversed purchase ∷ b.notes }
    | pending ↦ record b {
      rewards = insert purchase (record r { status = void }) b.rewards;
      notes = reward_voided purchase ∷ b.notes;
    }
    | approved ↦ record b {
      rewards = insert purchase (record r { status = void }) b.rewards;
      notes = reward_voided purchase ∷ b.notes;
    }
  ]
]
