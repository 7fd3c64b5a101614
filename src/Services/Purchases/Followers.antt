-- ===== src/Services/Purchases/Followers.antt =====
-- The accounts that progressed from one, and the search that `suspendPurchaseAccounts` of
-- src/lib/services/purchases.ts makes for them.
use mella_dashboard.Base.{
  ℕ, zero, suc, ◌≤◌, ◌≡◌, refl, sym, ap, ◌∙◌, ◌==◌, ==_iff, true, some, List, [], ◌∷◌, All, arith,
  count_if, lookup, Bool-cases, inl, inr,
}
use mathlib.Core.Option.{some-injective}
use mella_dashboard.Challenge.Types.{AccountStatus}
use mella_dashboard.Services.Store.{TradingAccount}
use mella_dashboard.Services.Engine.Transitions.{follows}
use mella_dashboard.Services.Purchases.Reversal.{find_follower, followers_of}

-- No account has two followers.
abbrev pub HasSingleFollowers : List (ℕ × TradingAccount) → Type 0
HasSingleFollowers accounts = (id : ℕ) → count_if (λ row. follows id row.1) accounts ≤ 1

-- The second account progressed from the first in so many phases.
abbrev pub HasProgressed : ℕ → List (ℕ × TradingAccount) → ℕ → ℕ → Type 0
HasProgressed zero accounts id j = j ≡ id
HasProgressed (suc n) accounts id j =
    (next : ℕ) × (a : TradingAccount) × (lookup next accounts ≡ some a)
    × (a.previous_account ≡ some id)
    × HasProgressed n accounts next j

follows-some : (id : ℕ) (a : TradingAccount) → a.previous_account ≡ some id → follows id a ≡ true
follows-some id a e = rw e ((==_iff id id).1 refl)

stored-counted :
    (id next : ℕ) (a : TradingAccount) (rows : List (ℕ × TradingAccount))
    → lookup next rows ≡ some a
    → follows id a ≡ true
    → 1 ≤ count_if (λ row. follows id row.1) rows
unfolding lookup
stored-counted id next a [] h f = cc
stored-counted id next a (row ∷ rows) h f = elim (Bool-cases (row.0 == next)) [
  | inl m ↦
      let own : row.1 ≡ a = some-injective _ _ (sym (rw m refl) ∙ h) in rw own (rw f (omega arith))
  | inr m ↦ let more = stored-counted id next a rows (sym (rw m refl) ∙ h) f in omega (arith, more)
]

-- The search finds a stored follower when there is no other.
stored-found :
    (id next : ℕ) (a : TradingAccount) (rows : List (ℕ × TradingAccount))
    → lookup next rows ≡ some a
    → follows id a ≡ true
    → count_if (λ row. follows id row.1) rows ≤ 1
    → find_follower id rows ≡ some (next, a)
unfolding lookup find_follower
stored-found id next a [] h f one = cc
stored-found id next a (row ∷ rows) h f one = elim (Bool-cases (row.0 == next)) [
  | inl m ↦
      let own : row.1 ≡ a = some-injective _ _ (sym (rw m refl) ∙ h) in
      let number = (==_iff row.0 next).0 m in rw own (rw f (ap (λ k. some (k, a)) number))
  | inr m ↦
      let later : lookup next rows ≡ some a = sym (rw m refl) ∙ h in
      let more = stored-counted id next a rows later f in
      elim (Bool-cases (follows id row.1)) [
        | inl g ↦ absurd (omega (arith, rw g at one, more))
        | inr g ↦ rw g (stored-found id next a rows later f (omega (arith, rw g at one)))
      ]
]

-- Everything that progressed within the rounds is among the followers.
pub progressed-member :
    (P : ℕ × AccountStatus → Type 0) (rounds n id j : ℕ) (accounts : List (ℕ × TradingAccount))
    → HasSingleFollowers accounts
    → suc n ≤ rounds
    → HasProgressed (suc n) accounts id j
    → All P (followers_of rounds id accounts)
    → (status : AccountStatus) × P (j, status)
unfolding followers_of
progressed-member P zero n id j accounts single l h ps = absurd (omega arith)
progressed-member P (suc rounds) zero id j accounts single l (next, a, stored, before, last) ps =
    let found = stored-found id next a accounts stored (follows-some id a before) (single id) in
    let (p, rest) = rw (found, followers_of) at ps in (a.status, rw last p)
progressed-member P (suc rounds) (suc n) id j accounts single l (next, a, stored, before, more) ps =
    let found = stored-found id next a accounts stored (follows-some id a before) (single id) in
    let (p, rest) = rw (found, followers_of) at ps in
    progressed-member P rounds n next j accounts single (omega arith) more rest
