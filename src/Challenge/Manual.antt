-- ===== src/Challenge/Manual.antt =====
-- `isLegalManualTransition` of src/lib/services/challengeRules.ts.
use mella_dashboard.Base.{Bool, true, false, ◌&&◌, ◌||◌, ◌≡◌, ◌≢◌, ◌↔◌, refl, if◌then◌else◌, arith}
use mella_dashboard.Challenge.Types.{
  AccountStatus, active, passed, failed, funded, suspended, frozen, TemplatePhase, phase_1, phase_2,
  funded_phase,
}

-- `===` on statuses.
abbrev pub same : AccountStatus → AccountStatus → Bool
same active active = true
same passed passed = true
same failed failed = true
same funded funded = true
same suspended suspended = true
same frozen frozen = true
same _ _ = false

abbrev reinstate_target : TemplatePhase → AccountStatus
reinstate_target funded_phase = funded
reinstate_target phase_1 = active
reinstate_target phase_2 = active

-- The cases of the `switch` on the target.
abbrev legal_target : AccountStatus → AccountStatus → TemplatePhase → Bool
legal_target from suspended p =
    same from active || same from funded || same from suspended || same from frozen
legal_target from frozen p =
    same from active || same from funded || same from suspended || same from frozen
legal_target from failed p =
    same from active || same from funded || same from suspended || same from frozen
legal_target from active p =
    same active (reinstate_target p)
    && (same from suspended || same from frozen || same from failed)
legal_target from funded p =
    same funded (reinstate_target p)
    && (same from suspended || same from frozen || same from failed)
legal_target from passed p = false

unfoldable pub is_legal_manual_transition : AccountStatus → AccountStatus → TemplatePhase → Bool
is_legal_manual_transition from to p = if same from to then false else legal_target from to p

-- The states in which an account trades, and those in which it is on hold.
pub data Live : AccountStatus → Type 0 where
  live_active : Live active
  live_funded : Live funded

pub data Held : AccountStatus → Type 0 where
  held_suspended : Held suspended
  held_frozen : Held frozen

-- The status in which an account of the phase trades.
pub data Home : TemplatePhase → AccountStatus → Type 0 where
  home_1 : Home phase_1 active
  home_2 : Home phase_2 active
  home_funded : Home funded_phase funded

-- What an administrator may do: hold a live account, move between the holds, fail a live or held
-- account, and put a held or failed one back to the status of its phase.
pub data Allowed (p : TemplatePhase) : AccountStatus → AccountStatus → Type 0 where
  hold : {s t : AccountStatus} → Live s → Held t → Allowed p s t
  swap_hold : {s t : AccountStatus} → Held s → Held t → s ≢ t → Allowed p s t
  fail_live : {s : AccountStatus} → Live s → Allowed p s failed
  fail_held : {s : AccountStatus} → Held s → Allowed p s failed
  reinstate_held : {s t : AccountStatus} → Held s → Home p t → Allowed p s t
  reinstate_failed : {t : AccountStatus} → Home p t → Allowed p failed t

ruleset moves = (
  hold, swap_hold, fail_live, fail_held, reinstate_held, reinstate_failed, live_active, live_funded,
  held_suspended, held_frozen, home_1, home_2, home_funded,
)

Allowed-legal :
    {from to : AccountStatus} {p : TemplatePhase}
    → Allowed p from to
    → is_legal_manual_transition from to p ≡ true
unfolding is_legal_manual_transition
Allowed-legal (hold live_active held_suspended) = refl
Allowed-legal (hold live_active held_frozen) = refl
Allowed-legal (hold live_funded held_suspended) = refl
Allowed-legal (hold live_funded held_frozen) = refl
Allowed-legal (swap_hold held_suspended held_suspended n) = absurd (n refl)
Allowed-legal (swap_hold held_suspended held_frozen n) = refl
Allowed-legal (swap_hold held_frozen held_suspended n) = refl
Allowed-legal (swap_hold held_frozen held_frozen n) = absurd (n refl)
Allowed-legal (fail_live live_active) = refl
Allowed-legal (fail_live live_funded) = refl
Allowed-legal (fail_held held_suspended) = refl
Allowed-legal (fail_held held_frozen) = refl
Allowed-legal (reinstate_held held_suspended home_1) = refl
Allowed-legal (reinstate_held held_suspended home_2) = refl
Allowed-legal (reinstate_held held_suspended home_funded) = refl
Allowed-legal (reinstate_held held_frozen home_1) = refl
Allowed-legal (reinstate_held held_frozen home_2) = refl
Allowed-legal (reinstate_held held_frozen home_funded) = refl
Allowed-legal (reinstate_failed home_1) = refl
Allowed-legal (reinstate_failed home_2) = refl
Allowed-legal (reinstate_failed home_funded) = refl

legal-Allowed :
    (from to : AccountStatus) (p : TemplatePhase)
    → is_legal_manual_transition from to p ≡ true
    → Allowed p from to
unfolding is_legal_manual_transition
legal-Allowed from to p h = grind (arith, moves)

-- The code accepts exactly the moves of the relation.
pub is_legal_manual_transition_iff :
    (from to : AccountStatus) (p : TemplatePhase)
    → (is_legal_manual_transition from to p ≡ true) ↔ Allowed p from to
is_legal_manual_transition_iff from to p = (legal-Allowed from to p, Allowed-legal)

-- Any number of an administrator's moves.
pub data Moves (p : TemplatePhase) (s : AccountStatus) : AccountStatus → Type 0 where
  here : Moves p s s
  move : {t u : AccountStatus} → Moves p s t → is_legal_manual_transition t u p ≡ true → Moves p s u

-- No sequence of moves leads to `PASSED` from another status, or away from it.
pub Moves-passed :
    {p : TemplatePhase} {s t : AccountStatus} → Moves p s t → (s ≡ passed) ↔ (t ≡ passed)
unfolding is_legal_manual_transition
Moves-passed here = (λ e. e, λ e. e)
Moves-passed (move m h) = grind (arith, Moves-passed m)
