-- ===== src/Services/Purchases/Stopping.antt =====
-- The suspension of the accounts of a purchase.
use mella_dashboard.Base.{
  ℕ, ◌≡◌, ◌≢◌, ◌⊎◌, refl, sym, ap, ◌∙◌, ◌==◌, ==_iff, true, false, none, some, List, [], ◌∷◌, All,
  map, lookup, if◌then◌else◌, Bool-cases, Option-cases, inl, inr,
}
use mathlib.Core.Option.{some-injective}
use mella_dashboard.Challenge.Types.{AccountStatus, suspended}
use mella_dashboard.Services.Store.{TradingAccount, Db}
use mella_dashboard.Services.Engine.Transitions.{update_account}
use mella_dashboard.Services.Engine.Commands.{is_trading, close_by_admin}
use mella_dashboard.Services.Engine.Claims.{update-lookup}
use mella_dashboard.Services.Purchases.Reversal.{suspended_row, suspend_account, suspend_all}

-- The stored account, if any, does not trade.
abbrev pub IsStopped : ℕ → Db → Type 0
IsStopped id db =
    (a : TradingAccount) → lookup id db.accounts ≡ some a → is_trading a.status ≡ false

suspend-lookup :
    (now reason j : ℕ) (x : ℕ × AccountStatus) (db : Db) (b : TradingAccount)
    → lookup j (suspend_account now reason x db).accounts ≡ some b
    → (b.status ≡ suspended)
      ⊎ (((x.0 ≢ j) ⊎ (is_trading x.1 ≡ false)) × (lookup j db.accounts ≡ some b))
unfolding suspend_account update_account
suspend-lookup now reason j (id, status) db b h = elim (Bool-cases (is_trading status)) [
  | inr f ↦ inr (inr f, sym (rw f refl) ∙ h)
  | inl t ↦
      let held : Db = record db { positions = map (close_by_admin now id) db.positions } in
      let step : lookup j (update_account id (suspended_row now reason) held).accounts ≡ some b =
        sym (rw t refl) ∙ h in
      elim (Option-cases (lookup id db.accounts)) [
        | inl n ↦
            let kept : lookup j db.accounts ≡ some b = sym (rw (n, update_account) refl) ∙ step in
            inr (inl (λ e. let clash : none ≡ some b = sym n ∙ (rw (sym e) at kept) in cc), kept)
        | inr (a, e) ↦
            let row : (if id == j then some (suspended_row now reason a) else lookup j db.accounts)
                ≡ some b =
              sym (update-lookup id j (suspended_row now reason) a held e) ∙ step in
            elim (Bool-cases (id == j)) [
              | inl m ↦
                  let same : suspended_row now reason a ≡ b =
                    some-injective _ _ (sym (rw m refl) ∙ row) in
                  inl (ap (λ x. x.status) (sym same))
              | inr m ↦ inr (inl (λ q. let k = (==_iff id j).1 q in cc), sym (rw m refl) ∙ row)
            ]
      ]
]

-- A suspension starts no account again.
suspend-keeps :
    (now reason j : ℕ) (x : ℕ × AccountStatus) (db : Db)
    → IsStopped j db
    → IsStopped j (suspend_account now reason x db)
suspend-keeps now reason j x db k b h = elim (suspend-lookup now reason j x db b h) [
  | inl e ↦ ap is_trading e
  | inr (c, old) ↦ k b old
]

-- An account that is suspended, or whose read status was not a trading one, is stopped.
suspend-own :
    (now reason : ℕ) (x : ℕ × AccountStatus) (db : Db)
    → (is_trading x.1 ≡ true) ⊎ IsStopped x.0 db
    → IsStopped x.0 (suspend_account now reason x db)
suspend-own now reason x db k b h = elim (suspend-lookup now reason x.0 x db b h) [
  | inl e ↦ ap is_trading e
  | inr (inl n, old) ↦ absurd (n refl)
  | inr (inr f, old) ↦ elim k [ inl t ↦ cc | inr stopped ↦ stopped b old ]
]

all-keeps :
    (now reason j : ℕ) (xs : List (ℕ × AccountStatus)) (db : Db)
    → IsStopped j db
    → IsStopped j (suspend_all now reason xs db)
unfolding suspend_all
all-keeps now reason j [] db k = k
all-keeps now reason j (x ∷ xs) db k =
    all-keeps now reason j xs (suspend_account now reason x db) (suspend-keeps now reason j x db k)

-- A status that was read, of an account that is trading or stopped.
abbrev pub IsRead : Db → ℕ × AccountStatus → Type 0
IsRead db x = (is_trading x.1 ≡ true) ⊎ IsStopped x.0 db

IsRead-keeps :
    (now reason : ℕ) (x : ℕ × AccountStatus) (ys : List (ℕ × AccountStatus)) (db : Db)
    → All (IsRead db) ys
    → All (IsRead (suspend_account now reason x db)) ys
IsRead-keeps now reason x [] db k = tt
IsRead-keeps now reason x (y ∷ ys) db (inl t, k) = (inl t, IsRead-keeps now reason x ys db k)
IsRead-keeps now reason x (y ∷ ys) db (inr s, k) =
    (inr (suspend-keeps now reason y.0 x db s), IsRead-keeps now reason x ys db k)

pub suspend_all-stops :
    (now reason : ℕ) (xs : List (ℕ × AccountStatus)) (db : Db)
    → All (IsRead db) xs
    → All (λ x. IsStopped x.0 (suspend_all now reason xs db)) xs
unfolding suspend_all
suspend_all-stops now reason [] db k = tt
suspend_all-stops now reason (x ∷ xs) db (h, k) =
    let next = suspend_account now reason x db in
    (
      all-keeps now reason x.0 xs next (suspend-own now reason x db h),
      suspend_all-stops now reason xs next (IsRead-keeps now reason x xs db k),
    )
