-- ===== src/Services/Purchases/Snapshot.antt =====
-- `buildPurchaseSnapshot` of src/lib/services/purchases.ts: the chain of the next phases of a template,
-- and the nested snapshot of all of them.
use mella_dashboard.Base.{
  ℕ, zero, suc, ◌==◌, ltb, not, ◌&&◌, Option, none, some, List, [], ◌∷◌, ◌++◌, any, length, lookup,
  if◌then◌else◌,
}
use mella_dashboard.Services.Store.{PhaseRules, TemplateSnapshot, last_phase, phase_then, Template}

-- The variables of the loop.
pub record ChainState : Type 0 where
  pub chain : List PhaseRules
  pub next_id : Option ℕ
  pub seen : List ℕ

-- `nextId && !seen.has(nextId) && chain.length < 4`, with the row that the body finds.
unfoldable pub next_in_chain : List (ℕ × Template) → ChainState → Option Template
next_in_chain templates c = elim c.next_id [
  | none ↦ none
  | some id ↦
      if not (any (λ i. i == id) c.seen) && ltb (length c.chain) 4
      then lookup id templates
      else none
]

unfoldable pub extend : Template → ChainState → ChainState
extend t c = record {
  chain = c.chain ++ t.rules ∷ [];
  next_id = t.rules.next_phase_id;
  seen = t.rules.template_id ∷ c.seen;
}

-- The loop, for at most `fuel` rounds; none where it has not ended by then.
unfoldable pub run_chain : ℕ → List (ℕ × Template) → ChainState → Option ChainState
run_chain zero templates c = none
run_chain (suc fuel) templates c = elim (next_in_chain templates c) [
  | none ↦ some c
  | some t ↦ run_chain fuel templates (extend t c)
]

-- The template with the chain nested in it, from its end.
unfoldable pub nest : PhaseRules → List PhaseRules → TemplateSnapshot
nest r [] = last_phase r
nest r (s ∷ ss) = phase_then r (nest s ss)

unfoldable pub chain_start : PhaseRules → ChainState
chain_start r = record { chain = []; next_id = r.next_phase_id; seen = r.template_id ∷ [] }

unfoldable pub build_purchase_snapshot :
    ℕ → List (ℕ × Template) → PhaseRules → Option TemplateSnapshot
build_purchase_snapshot fuel templates r = elim (run_chain fuel templates (chain_start r)) [
  | none ↦ none
  | some c ↦ some (nest r c.chain)
]
