-- ===== src/Base/Lists.antt =====
-- Lists measured by native numbers, under the library's names, and association lists.
use Prim.Native.Nat.{ℕ, suc, ◌+◌}
use mathlib.Core.Path.{◌≡◌, refl, ap}
use mathlib.Core.Logic.{inl, inr}
use mathlib.Core.Bool.{Bool, true, false}
use mathlib.Core.List.{List, [], ◌∷◌, ◌++◌}
use mathlib.Core.Option.{Option, none, some}
use native.Mathlib.Omega.{arith}
use native.Mathlib.Decide.{ℕ_discrete}
use mella_dashboard.Base.Tests.{◌==◌, if◌then◌else◌, Bool-cases}

module _ {ℓ} {A : Type ℓ} where
  abbrev pub length : List A → ℕ
  length [] = 0
  length (x ∷ xs) = suc (length xs)

  abbrev pub get_last? : List A → Option A
  get_last? [] = none
  get_last? (x ∷ []) = some x
  get_last? (x ∷ y ∷ ys) = get_last? (y ∷ ys)

  pub length-append : (xs ys : List A) → length (xs ++ ys) ≡ length xs + length ys
  length-append [] ys = omega arith
  length-append (x ∷ xs) ys = omega (arith, length-append xs ys)

  abbrev pub All {κ} : (A → Type κ) → List A → Type κ
  All P [] = Unit
  All P (x ∷ xs) = P x × All P xs

  -- A test on every element, and the elements that pass one.
  abbrev pub any : (A → Bool) → List A → Bool
  any p [] = false
  any p (x ∷ xs) = if p x then true else any p xs

  abbrev pub keep : (A → Bool) → List A → List A
  keep p [] = []
  keep p (x ∷ xs) = let rest = keep p xs in if p x then x ∷ rest else rest

  abbrev pub count_if : (A → Bool) → List A → ℕ
  count_if p [] = 0
  count_if p (x ∷ xs) = (if p x then 1 else 0) + count_if p xs

-- A map from identifiers as an association list.
module _ {ℓ} {V : Type ℓ} where
  -- `Map.get`.
  unfoldable pub lookup : ℕ → List (ℕ × V) → Option V
  lookup key [] = none
  lookup key (entry ∷ more) = if entry.0 == key then some entry.1 else lookup key more

  -- `Map.set`: an existing key keeps its place.
  unfoldable pub insert : ℕ → V → List (ℕ × V) → List (ℕ × V)
  insert key value [] = (key, value) ∷ []
  insert key value (entry ∷ more) =
      let rest = entry ∷ insert key value more in
      if entry.0 == key then (key, value) ∷ more else rest

  -- `Map.delete`.
  unfoldable pub erase : ℕ → List (ℕ × V) → List (ℕ × V)
  erase key [] = []
  erase key (entry ∷ more) =
      let rest = erase key more in if entry.0 == key then rest else entry ∷ rest

  pub lookup-insert :
      (key other : ℕ) (value : V) (entries : List (ℕ × V))
      → lookup other (insert key value entries)
        ≡ (if key == other then some value else lookup other entries)
  unfolding lookup insert
  lookup-insert key other value [] = refl
  lookup-insert key other value (entry ∷ more) = ground (arith, lookup-insert key other value more)

  pub lookup-erase :
      (key other : ℕ) (entries : List (ℕ × V))
      → lookup other (erase key entries) ≡ (if key == other then none else lookup other entries)
  unfolding lookup erase
  lookup-erase key other [] = ground arith
  lookup-erase key other (entry ∷ more) = ground (arith, lookup-erase key other more)

  pub lookup-keep :
      (p : ℕ → Bool) (j : ℕ) (m : List (ℕ × V))
      → lookup j (keep (λ e. p e.0) m) ≡ (if p j then lookup j m else none)
  unfolding lookup
  lookup-keep p j [] = ground arith
  lookup-keep p j ((i, w) ∷ m) = elim (ℕ_discrete i j) [
    | yes e ↦ rw e (ground (arith, lookup-keep p j m))
    | no n ↦ ground (arith, lookup-keep p j m)
  ]

  -- Writing back what is there changes nothing.
  pub insert-lookup :
      (key : ℕ) (value : V) (entries : List (ℕ × V))
      → lookup key entries ≡ some value
      → insert key value entries ≡ entries
  unfolding lookup insert
  insert-lookup key value [] h = cc
  insert-lookup key value (entry ∷ more) h = elim (Bool-cases (entry.0 == key)) [
    | inl e ↦ ground arith
    | inr n ↦ rw n (ap (λ m. entry ∷ m) (insert-lookup key value more (rw n at h)))
  ]
