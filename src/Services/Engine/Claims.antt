-- ===== src/Services/Engine/Claims.antt =====
-- The claim of a transition by compare-and-swap, and what the other writes keep.
use mella_dashboard.Base.{
  ℕ, ◌≡◌, ◌≢◌, ◌⊎◌, refl, sym, ◌==◌, Bool, true, false, none, some, List, [], ◌∷◌, arith, lookup,
  insert, lookup-insert, if◌then◌else◌, any, Bool-cases, Option-cases, inl, inr,
}
use mathlib.Core.Option.{some-injective}
use mella_dashboard.Challenge.Types.{AccountStatus, passed}
use mella_dashboard.Challenge.Manual.{same}
use mella_dashboard.Services.Store.{TradingAccount, TemplateSnapshot, Db, CertificateType}
use mella_dashboard.Services.Engine.Transitions.{
  update_account, add_notes, issue_certificate, next_rules, created_account, create_next,
  advance_to_next_phase, numeric_fields, follows,
}
use mella_dashboard.Services.Engine.Commands.{
  Evaluation, or_rolled_back, commit_evaluation, transitioned, after_claim,
}
use mella_dashboard.Base.{ap, ==_iff, ◌∙◌}
use mella_dashboard.Services.Store.{status_auto_transition, told_user, challenge_passed_certificate}

-- A certificate leaves the accounts alone.
pub issue_certificate-keeps :
    (t : CertificateType) (id user : ℕ) (db : Db)
    → ((issue_certificate t id user db).accounts ≡ db.accounts)
      × ((issue_certificate t id user db).next_id ≡ db.next_id)
unfolding issue_certificate
issue_certificate-keeps t id user db = ground arith

create_next-accounts :
    (id user : ℕ) (next : TemplateSnapshot) (now : ℕ) (db : Db)
    → (create_next id user next now db).accounts
      ≡ (db.next_id, created_account user id next now) ∷ db.accounts
unfolding issue_certificate
create_next-accounts id user next now db = ground arith

-- Whether an account has a next phase already.
abbrev pub has_follower : ℕ → List (ℕ × TradingAccount) → Bool
has_follower id rows = any (λ row. follows id row.1) rows

-- A phase advance aborts the transaction when the account has a follower already, or it keeps every
-- row but the one of the next identifier.
advance-cases :
    (id user : ℕ) (s : TemplateSnapshot) (now : ℕ) (db : Db)
    → ((advance_to_next_phase id user s now db ≡ none) × (has_follower id db.accounts ≡ true))
      ⊎ ((after : Db) × (advance_to_next_phase id user s now db ≡ some after)
          × ((j : ℕ) → j ≢ db.next_id → lookup j after.accounts ≡ lookup j db.accounts))
unfolding advance_to_next_phase lookup
advance-cases id user s now db = elim (Option-cases (next_rules s db)) [
  | inl e ↦ inr (db, rw (e, advance_to_next_phase) refl, λ j h. refl)
  | inr (next, e) ↦ elim (Bool-cases (has_follower id db.accounts)) [
    | inl f ↦ inl (rw (e, advance_to_next_phase) (rw f refl), f)
    | inr f ↦ inr (
      create_next id user next now db,
      rw (e, advance_to_next_phase) (rw f refl),
      λ j h. rw (create_next-accounts id user next now db) (ground arith),
    )
  ]
]

pub update-lookup :
    (id j : ℕ) (f : TradingAccount → TradingAccount) (a : TradingAccount) (db : Db)
    → lookup id db.accounts ≡ some a
    → lookup j (update_account id f db).accounts
      ≡ (if id == j then some (f a) else lookup j db.accounts)
unfolding update_account
update-lookup id j f a db h = rw (h, update_account) (lookup-insert id j (f a) db.accounts)

pub update-next :
    (id : ℕ) (f : TradingAccount → TradingAccount) (db : Db)
    → (update_account id f db).next_id ≡ db.next_id
unfolding update_account
update-next id f db = ground arith

same_refl : (s : AccountStatus) → same s s ≡ true
same_refl s = ground arith

pub same_iff : (s t : AccountStatus) → same s t ≡ true → s ≡ t
same_iff s t h = ground arith

-- After a claim, the transaction is aborted for a pass with a follower, or every row stays but the one
-- of the next identifier.
after_claim-cases :
    (now id : ℕ) (e : Evaluation) (db : Db)
    → ((after_claim now id e db ≡ none)
        × (e.decision.next_status ≡ passed)
        × (has_follower id db.accounts ≡ true))
      ⊎ ((after : Db) × (after_claim now id e db ≡ some after)
          × ((j : ℕ) → j ≢ db.next_id → lookup j after.accounts ≡ lookup j db.accounts))
unfolding after_claim
after_claim-cases now id e db =
    let user = e.fresh.user_id in
    let told = add_notes (status_auto_transition id ∷ told_user user ∷ []) db in
    let (kept, next) = issue_certificate-keeps challenge_passed_certificate id user told in
    let certified = issue_certificate challenge_passed_certificate id user told in
    elim (Bool-cases (same e.decision.next_status passed)) [
      | inr p ↦ inr (told, rw p refl, λ j h. refl)
      | inl p ↦ elim (advance-cases id user e.fresh.snapshot now certified) [
        | inl (a, f) ↦ inl (rw p a, same_iff _ _ p, sym (ap (has_follower id) kept) ∙ f)
        | inr (after, a, k) ↦ inr (after, rw p a, λ j h. k j (rw next h) ∙ ap (lookup j) kept)
      ]
    ]

commit-claimed :
    (now id : ℕ) (e : Evaluation) (a : TradingAccount) (db : Db)
    → lookup id db.accounts ≡ some a
    → a.status ≡ e.previous_status
    → same e.decision.next_status e.previous_status ≡ false
    → commit_evaluation now id e db
      ≡ or_rolled_back db (after_claim now id e (update_account id (transitioned now e) db))
unfolding commit_evaluation
commit-claimed now id e a db h k n = rw (n, h) (rw k (rw (same_refl e.previous_status) refl))

pub commit-idle :
    (now id : ℕ) (e : Evaluation) (db : Db)
    → same e.decision.next_status e.previous_status ≡ true
    → commit_evaluation now id e db ≡ update_account id (numeric_fields e.fresh) db
unfolding commit_evaluation
commit-idle now id e db s = rw s refl

-- A row that keeps the account before it is a follower as the old one was.
pub insert-followers :
    (id j : ℕ) (a b : TradingAccount) (rows : List (ℕ × TradingAccount))
    → lookup id rows ≡ some a
    → b.previous_account ≡ a.previous_account
    → has_follower j (insert id b rows) ≡ has_follower j rows
unfolding lookup insert
insert-followers id j a b [] h e = cc
insert-followers id j a b (row ∷ rows) h e = elim (Bool-cases (row.0 == id)) [
  | inl m ↦
      let own : row.1 ≡ a = some-injective _ _ (sym (rw m refl) ∙ h) in ground (arith, m, own, e)
  | inr m ↦ ground (arith, m, insert-followers id j a b rows (sym (rw m refl) ∙ h) e)
]

claimed-followers :
    (now id : ℕ) (e : Evaluation) (a : TradingAccount) (db : Db)
    → lookup id db.accounts ≡ some a
    → has_follower id (update_account id (transitioned now e) db).accounts
      ≡ has_follower id db.accounts
unfolding update_account transitioned
claimed-followers now id e a db h =
    rw (h, update_account) (insert-followers id id a (transitioned now e a) db.accounts h refl)

-- A claim is rolled back for a pass with a follower, or the account's row is written.
pub claim-cases :
    (now id : ℕ) (e : Evaluation) (a : TradingAccount) (db : Db)
    → lookup id db.accounts ≡ some a
    → id ≢ db.next_id
    → a.status ≡ e.previous_status
    → same e.decision.next_status e.previous_status ≡ false
    → ((commit_evaluation now id e db ≡ db)
        × (e.decision.next_status ≡ passed)
        × (has_follower id db.accounts ≡ true))
      ⊎ (lookup id (commit_evaluation now id e db).accounts ≡ some (transitioned now e a))
claim-cases now id e a db h f k n =
    let written = update_account id (transitioned now e) db in
    let step = commit-claimed now id e a db h k n in
    elim (after_claim-cases now id e written) [
      | inl (none_left, p, q) ↦
          inl (step ∙ rw none_left refl, p, sym (claimed-followers now id e a db h) ∙ q)
      | inr (after, committed, kept) ↦
          let row : lookup id after.accounts ≡ some (transitioned now e a) =
            kept id (rw (update-next id (transitioned now e) db) f)
            ∙ update-lookup id id (transitioned now e) a db h
            ∙ rw ((==_iff id id).1 refl) refl in
          inr (rw step (rw committed row))
    ]

-- A status that does not match loses the claim.
pub commit-unclaimed :
    (now id : ℕ) (e : Evaluation) (a : TradingAccount) (db : Db)
    → lookup id db.accounts ≡ some a
    → same a.status e.previous_status ≡ false
    → commit_evaluation now id e db ≡ update_account id (numeric_fields e.fresh) db
unfolding commit_evaluation
commit-unclaimed now id e a db h n =
    elim (Bool-cases (same e.decision.next_status e.previous_status)) [
      | inl s ↦ rw s refl
      | inr s ↦ rw (s, h) (rw n refl)
    ]

moved_away :
    (now : ℕ) (e : Evaluation) (a : TradingAccount)
    → same e.decision.next_status e.previous_status ≡ false
    → same (transitioned now e a).status e.previous_status ≡ false
unfolding transitioned
moved_away now e a h = h

-- Of two evaluations that read one account in the same status, the second to write transitions
-- nothing: once the first has claimed a transition, the second only refreshes the money columns. Only
-- a pass of an account that has a next phase already is rolled back, and leaves the claim open.
pub commit_evaluation_once :
    (first_now second_now id : ℕ) (first second : Evaluation) (a : TradingAccount) (db : Db)
    → lookup id db.accounts ≡ some a
    → id ≢ db.next_id
    → a.status ≡ first.previous_status
    → second.previous_status ≡ first.previous_status
    → first.decision.next_status ≢ first.previous_status
    → let after = commit_evaluation first_now id first db in
      ((after ≡ db) × (first.decision.next_status ≡ passed) × (has_follower id db.accounts ≡ true))
      ⊎ (commit_evaluation second_now id second after
          ≡ update_account id (numeric_fields second.fresh) after)
commit_evaluation_once now later id e g a db h f k p n =
    let moved : same e.decision.next_status e.previous_status ≡ false =
      elim (Bool-cases (same e.decision.next_status e.previous_status)) [
        | inl s ↦ absurd (n (same_iff _ _ s))
        | inr s ↦ s
      ] in
    elim (claim-cases now id e a db h f k moved) [
      | inl rolled ↦ inl rolled
      | inr row ↦ inr (
          commit-unclaimed later id g (transitioned now e a) _ row
            (rw p (moved_away now e a moved)))
    ]
