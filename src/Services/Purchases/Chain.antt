-- ===== src/Services/Purchases/Chain.antt =====
-- The frozen chain of phases: the loop of `buildPurchaseSnapshot` ends, and what it leaves.
use mella_dashboard.Base.{
  ℕ, zero, suc, ◌<◌, ◌≤◌, ◌+◌, ◌≡◌, ◌⊎◌, ◌==◌, ltb, Bool, true, false, not, ◌&&◌, ◌||◌, Option,
  none, some, List, [], ◌∷◌, ◌++◌, map, any, length, length-append, lookup, arith, refl, sym, ap,
  ◌∙◌, Bool-cases, Option-cases, inl, inr,
}
use mella_dashboard.Services.Store.{PhaseRules, TemplateSnapshot, last_phase, phase_then, Template}
use mella_dashboard.Services.Purchases.Snapshot.{
  ChainState, next_in_chain, extend, run_chain, nest, chain_start, build_purchase_snapshot,
}

-- The phases of a snapshot, in the order of `next_phase_snapshot`.
abbrev pub phases : TemplateSnapshot → List PhaseRules
phases (last_phase r) = r ∷ []
phases (phase_then r s) = r ∷ phases s

abbrev pub ids : List PhaseRules → List ℕ
ids rs = map (λ r. r.template_id) rs

abbrev pub has : ℕ → List ℕ → Bool
has id is = any (λ i. i == id) is

-- No number twice.
unfoldable pub all_distinct : List ℕ → Bool
all_distinct [] = true
all_distinct (i ∷ is) = not (has i is) && all_distinct is

-- Each phase names the next one.
abbrev pub IsLinked : PhaseRules → List PhaseRules → Type 0
IsLinked r [] = Unit
IsLinked r (s ∷ ss) = (r.next_phase_id ≡ some s.template_id) × IsLinked s ss

-- What the last phase names.
abbrev pub last_next : PhaseRules → List PhaseRules → Option ℕ
last_next r [] = r.next_phase_id
last_next r (s ∷ ss) = last_next s ss

-- A template stands under its own number.
abbrev pub IsKeyed : List (ℕ × Template) → Type 0
IsKeyed templates =
    (id : ℕ) (t : Template) → lookup id templates ≡ some t → t.rules.template_id ≡ id

phases-nest : (r : PhaseRules) (ss : List PhaseRules) → phases (nest r ss) ≡ r ∷ ss
unfolding nest
phases-nest r [] = refl
phases-nest r (s ∷ ss) = ap (λ l. r ∷ l) (phases-nest s ss)

IsLinked-snoc :
    (r t : PhaseRules) (ss : List PhaseRules)
    → IsLinked r ss
    → last_next r ss ≡ some t.template_id
    → IsLinked r (ss ++ t ∷ [])
IsLinked-snoc r t [] l h = (h, tt)
IsLinked-snoc r t (s ∷ ss) (h, l) k = (h, IsLinked-snoc s t ss l k)

last-snoc : (r t : PhaseRules) (ss : List PhaseRules) → last_next r (ss ++ t ∷ []) ≡ t.next_phase_id
last-snoc r t [] = refl
last-snoc r t (s ∷ ss) = last-snoc s t ss

has-snoc :
    (id : ℕ) (t : PhaseRules) (ss : List PhaseRules)
    → has id (ids (ss ++ t ∷ [])) ≡ (t.template_id == id || has id (ids ss))
has-snoc id t [] = ground arith
has-snoc id t (s ∷ ss) = ground (arith, has-snoc id t ss)

distinct-snoc :
    (t : PhaseRules) (ss : List PhaseRules)
    → all_distinct (ids ss) ≡ true
    → has t.template_id (ids ss) ≡ false
    → all_distinct (ids (ss ++ t ∷ [])) ≡ true
unfolding all_distinct
distinct-snoc t [] d h = refl
distinct-snoc t (s ∷ ss) d h = ground (arith, distinct-snoc t ss, has-snoc s.template_id t ss)

-- What the loop keeps.
record IsChain (r : PhaseRules) (c : ChainState) : Type 0 where
  short : length c.chain ≤ 4
  linked : IsLinked r c.chain
  follows : c.next_id ≡ last_next r c.chain
  distinct : all_distinct (ids (r ∷ c.chain)) ≡ true
  remembered : (id : ℕ) → has id c.seen ≡ has id (ids (r ∷ c.chain))

next-cases :
    (templates : List (ℕ × Template)) (c : ChainState) (t : Template)
    → next_in_chain templates c ≡ some t
    → (id : ℕ) × (c.next_id ≡ some id)
      × (has id c.seen ≡ false)
      × (length c.chain < 4)
      × (lookup id templates ≡ some t)
unfolding next_in_chain
next-cases templates c t h = elim (Option-cases c.next_id) [
  | inl n ↦ let clash : none ≡ some t = sym (rw (n, next_in_chain) refl) ∙ h in cc
  | inr (id, e) ↦ elim (Bool-cases (not (has id c.seen) && ltb (length c.chain) 4)) [
    | inr f ↦ let clash : none ≡ some t = sym (rw (e, next_in_chain) (rw f refl)) ∙ h in cc
    | inl f ↦ (id, e, ground arith, ground arith, sym (rw (e, next_in_chain) (rw f refl)) ∙ h)
  ]
]

extend-IsChain :
    (templates : List (ℕ × Template)) (r : PhaseRules) (c : ChainState) (t : Template)
    → IsKeyed templates
    → IsChain r c
    → next_in_chain templates c ≡ some t
    → IsChain r (extend t c)
unfolding extend
extend-IsChain templates r c t keyed k h =
    let (id, e, unseen, room, found) = next-cases templates c t h in
    let key = keyed id t found in
    let fresh : has t.rules.template_id (ids (r ∷ c.chain)) ≡ false =
      sym (k.remembered t.rules.template_id) ∙ rw key unseen in
    record {
      short = omega (arith, length-append c.chain (t.rules ∷ []));
      linked = IsLinked-snoc r t.rules c.chain k.linked (sym k.follows ∙ e ∙ ap some (sym key));
      follows = sym (last-snoc r t.rules c.chain);
      distinct = distinct-snoc t.rules (r ∷ c.chain) k.distinct fresh;
      remembered = λ i. ground (arith, k.remembered i, has-snoc i t.rules (r ∷ c.chain));
    }

extend-length : (t : Template) (c : ChainState) → length (extend t c).chain ≡ suc (length c.chain)
unfolding extend
extend-length t c = omega (arith, length-append c.chain (t.rules ∷ []))

-- With one round more than the chain can still grow, the loop ends, in a chain that has no next row.
run_chain-done :
    (fuel : ℕ) (templates : List (ℕ × Template)) (r : PhaseRules) (c : ChainState)
    → IsKeyed templates
    → IsChain r c
    → 5 ≤ fuel + length c.chain
    → (d : ChainState) × (run_chain fuel templates c ≡ some d)
      × IsChain r d
      × (next_in_chain templates d ≡ none)
unfolding run_chain
run_chain-done zero templates r c keyed k h = let short = k.short in absurd (omega arith)
run_chain-done (suc fuel) templates r c keyed k h =
    elim (Option-cases (next_in_chain templates c)) [
      | inl n ↦ (c, rw (n, run_chain) refl, k, n)
      | inr (t, e) ↦
          let grown : length (extend t c).chain ≡ suc (length c.chain) = extend-length t c in
          let (d, ends, chained, last) =
            run_chain-done fuel templates r (extend t c) keyed
              (extend-IsChain templates r c t keyed k e) (omega (arith, grown)) in
          (d, rw (e, run_chain) ends, chained, last)
    ]

start-IsChain : (r : PhaseRules) → IsChain r (chain_start r)
unfolding chain_start all_distinct
start-IsChain r = record {
  short = omega arith;
  linked = tt;
  follows = refl;
  distinct = refl;
  remembered = λ i. refl;
}

-- Why a chain has ended: its last phase names no template, one that is missing, or one that is in it
-- already, or it has all the five phases there can be.
abbrev pub IsComplete : List (ℕ × Template) → PhaseRules → List PhaseRules → Type 0
IsComplete templates r ss =
    (last_next r ss ≡ none)
    ⊎ ((id : ℕ) × (last_next r ss ≡ some id)
        × ((lookup id templates ≡ none) ⊎ ((has id (ids (r ∷ ss)) ≡ true) ⊎ (length ss ≡ 4))))

ended-IsComplete :
    (templates : List (ℕ × Template)) (r : PhaseRules) (c : ChainState)
    → IsChain r c
    → next_in_chain templates c ≡ none
    → IsComplete templates r c.chain
unfolding next_in_chain
ended-IsComplete templates r c k h = elim (Option-cases c.next_id) [
  | inl n ↦ inl (sym k.follows ∙ n)
  | inr (id, e) ↦
      let short = k.short in
      let known = k.remembered id in
      inr (
        id,
        sym k.follows ∙ e,
        elim (Bool-cases (not (has id c.seen) && ltb (length c.chain) 4)) [
          | inl f ↦ inl (sym (rw (e, next_in_chain) (rw f refl)) ∙ h)
          | inr f ↦ inr (ground arith)
        ],
      )
]

-- Five rounds are enough for the loop, whatever the templates name: the snapshot is
-- built. Its phases start with the template, each names the next, none
-- comes twice, there are five at most, and the last one ends the chain for a reason.
pub build_purchase_snapshot_lem :
    (fuel : ℕ) (templates : List (ℕ × Template)) (r : PhaseRules)
    → IsKeyed templates
    → 5 ≤ fuel
    → (s : TemplateSnapshot) × (ss : List PhaseRules) × (build_purchase_snapshot fuel templates r
        ≡ some s)
      × (phases s ≡ r ∷ ss)
      × (length ss ≤ 4)
      × IsLinked r ss
      × (all_distinct (ids (r ∷ ss)) ≡ true)
      × IsComplete templates r ss
unfolding build_purchase_snapshot
build_purchase_snapshot_lem fuel templates r keyed h =
    let (d, ends, k, last) =
      run_chain-done fuel templates r (chain_start r) keyed (start-IsChain r) (omega arith) in
    (
      nest r d.chain,
      d.chain,
      rw (ends, build_purchase_snapshot) refl,
      phases-nest r d.chain,
      k.short,
      k.linked,
      k.distinct,
      ended-IsComplete templates r d k last,
    )
