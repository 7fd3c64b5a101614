-- ===== src/Services/Referrals/Examples.antt =====
-- A generated code, and the reward of a first purchase.
use mella_dashboard.Base.{ℕ, ◌≡◌, refl, pos, ◌*ℤ◌, true, none, some, List, [], ◌∷◌, arith, lookup}
use mella_dashboard.Money.{round_percent_of}
use mella_dashboard.Services.Referrals.{
  ReferralReward, ReferralBook, number, create_reward, new_reward, referrer_of,
  get_commission_percent,
}
use mella_dashboard.Services.Referrals.Codes.{
  generate_referral_code, normalize_referral_code, alphabet, take_bytes, fill_code, all_kept, kept,
  generate-normalize,
}

-- The second call brings the last letter; 250 is rejected.
abbrev calls : List (List ℕ)
calls = (0 ∷ 1 ∷ 250 ∷ 2 ∷ 3 ∷ []) ∷ (30 ∷ 8 ∷ 16 ∷ 247 ∷ 9 ∷ []) ∷ []

generate-normalize_example :
    (code : List ℕ) × (generate_referral_code calls ≡ some code)
    × (normalize_referral_code (λ text. text) code ≡ some code)
unfolding all_kept kept
generate-normalize_example = generate-normalize (λ text. text) calls (λ text h. refl) (omega arith)

generates : generate_referral_code calls ≡ some (50 ∷ 51 ∷ 52 ∷ 53 ∷ 90 ∷ 65 ∷ 74 ∷ 90 ∷ [])
unfolding generate_referral_code fill_code take_bytes alphabet
generates = refl

-- User 6 was referred by user 5.
abbrev book : ReferralBook
book = record {
  users =
      (5, record { referral_code = some 1; referred_by = none; is_active = true })
      ∷ (6, record { referral_code = none; referred_by = some 5; is_active = true })
      ∷ [];
  rewards = [];
  commission = number (pos 1000);
  debits = [];
  notes = [];
}

abbrev reward : ReferralReward
reward = new_reward 5 6 (pos 1000) (pos 90_000_000)

rewarded : lookup 2 (create_reward 2 6 (pos 900_000_000) book).rewards ≡ some reward
unfolding create_reward referrer_of lookup get_commission_percent round_percent_of ◌*ℤ◌
rewarded = refl
