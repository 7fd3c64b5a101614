-- ===== src/Services/Referrals/Deciding.antt =====
-- `decideReferralReward` of src/lib/services/referrals.ts.
use mella_dashboard.Base.{
  ℕ, ◌==◌, Bool, true, false, not, ◌||◌, Option, none, some, List, ◌∷◌, any, neg_ℤ, if◌then◌else◌,
  lookup, insert,
}
use mella_dashboard.Services.Store.{
  Note, reward_decided, told_user, Outcome, done, refused, Failure, not_found, conflict, forbidden,
}
use mella_dashboard.Services.Referrals.{
  RewardStatus, pending, approved, paid, void, ReferralReward, RewardDebit, ReferralBook,
}

-- `ReferralRewardAction`; a `void_with` says whether its reason has any text.
pub data RewardAction : Type 0 where
  approve pay : RewardAction
  void_with : Bool → RewardAction

abbrev pub is_pending : RewardStatus → Bool
is_pending pending = true
is_pending approved = false
is_pending paid = false
is_pending void = false

abbrev pub is_approved : RewardStatus → Bool
is_approved approved = true
is_approved pending = false
is_approved paid = false
is_approved void = false

abbrev pub claims : RewardAction → RewardStatus → Bool
claims approve s = is_pending s
claims pay s = is_approved s
claims (void_with text) s = is_pending s || is_approved s

abbrev is_actor : Option ℕ → ℕ → Bool
is_actor none actor = false
is_actor (some by) actor = by == actor

-- The checks on the row that was read, in their order.
unfoldable pub action_refusal : RewardAction → ℕ → ReferralReward → Option Failure
action_refusal approve actor r =
    if r.referrer == actor
    then some forbidden
    else if is_pending r.status
    then none
    else some conflict
action_refusal pay actor r =
    if r.referrer == actor
    then some forbidden
    else if not (is_approved r.status)
    then some conflict
    else if is_actor r.approved_by actor
    then some forbidden
    else none
action_refusal (void_with text) actor r =
    if r.referrer == actor
    then some forbidden
    else if not text
    then some conflict
    else if is_pending r.status || is_approved r.status
    then none
    else some conflict

unfoldable pub acted : RewardAction → ℕ → ReferralReward → ReferralReward
acted approve actor r = record r { status = approved; approved_by = some actor }
acted pay actor r = record r { status = paid; paid_by = some actor }
acted (void_with text) actor r = record r { status = void }

-- `createMany` with `skipDuplicates` on the debit of a paid reward.
unfoldable pub debit_reward :
    RewardAction → ℕ → ReferralReward → List RewardDebit → List RewardDebit
debit_reward approve id r ds = ds
debit_reward (void_with text) id r ds = ds
debit_reward pay id r ds =
    if any (λ d. d.purchase == id) ds
    then ds
    else record { purchase = id; amount = neg_ℤ r.amount } ∷ ds

abbrev action_notes : RewardAction → ℕ → ℕ → List Note → List Note
action_notes approve id referrer ns = told_user referrer ∷ reward_decided id ∷ ns
action_notes pay id referrer ns = told_user referrer ∷ reward_decided id ∷ ns
action_notes (void_with text) id referrer ns = reward_decided id ∷ ns

-- The claim and the writes, for a row read before.
unfoldable pub claim_action :
    RewardAction → ℕ → ℕ → ReferralReward → ReferralBook → Outcome ReferralBook
claim_action act actor id before b = elim (lookup id b.rewards) [
  | none ↦ refused conflict
  | some r ↦
      if claims act r.status
      then done (record b {
        rewards = insert id (acted act actor r) b.rewards;
        debits = debit_reward act id before b.debits;
        notes = action_notes act id before.referrer b.notes;
      })
      else refused conflict
]

unfoldable pub decide_read_reward :
    RewardAction → ℕ → ℕ → ReferralReward → ReferralBook → Outcome ReferralBook
decide_read_reward act actor id before b = elim (action_refusal act actor before) [
  | some f ↦ refused f
  | none ↦ claim_action act actor id before b
]

unfoldable pub decide_referral_reward : RewardAction → ℕ → ℕ → ReferralBook → Outcome ReferralBook
decide_referral_reward act actor id b = elim (lookup id b.rewards) [
  | none ↦ refused not_found
  | some before ↦ decide_read_reward act actor id before b
]
