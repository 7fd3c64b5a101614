-- ===== src/Trading/Coalescing/Examples.antt =====
-- Frames of a key with an interval of 100 ms.
use mella_dashboard.Base.{ℕ, ◌≡◌, refl, none, List, [], ◌∷◌, lookup, insert, erase, inl, inr}
use mella_dashboard.Trading.Coalescing.{offer, drain, drain_entries, forget}
use mella_dashboard.Trading.Coalescing.Watching.{
  Call, offers, drains, forgets, call, calls, first_value, IsSpaced,
}
use mella_dashboard.Trading.Coalescing.Pace.{nothing_sent, calls-paced}

-- Two values come too early, and the later one is sent; another key has its own interval.
abbrev traffic : List (ℕ × Call ℕ)
traffic =
    (1000, offers 7 41 100)
    ∷ (1020, offers 7 42 100)
    ∷ (1030, offers 8 5 10)
    ∷ (1050, offers 7 43 100)
    ∷ (1060, drains)
    ∷ (1070, forgets 8)
    ∷ []

sent_first : (calls 7 traffic nothing_sent).sent ≡ (1000, 41) ∷ []
unfolding calls call offer drain drain_entries forget lookup insert erase
sent_first = refl

sent_then : (call 7 1100 drains (calls 7 traffic nothing_sent)).sent ≡ (1100, 43) ∷ (1000, 41) ∷ []
unfolding calls call offer drain drain_entries forget lookup insert erase
sent_then = refl

-- A key that was forgotten is sent at once.
sent_again :
    (calls {V = ℕ} 7
      ((1000, offers 7 41 100) ∷ (1010, forgets 7) ∷ (1020, offers 7 42 100) ∷ [])
      nothing_sent).sent
    ≡ (1020, 42) ∷ []
unfolding calls call offer drain drain_entries forget lookup insert erase
sent_again = refl

calls-paced_example :
    let w = calls 7 traffic nothing_sent in
    let after = call 7 1100 drains w in
    IsSpaced 100 w.sent
    × (lookup 7 after.coalescer.pending ≡ none)
    × (w.latest ≡ first_value after.sent)
unfolding calls call offer drain drain_entries forget lookup insert erase
calls-paced_example =
    calls-paced 7 100 1100 traffic (inr refl, (inr refl, (inl refl, (inr refl, (tt, (tt, tt))))))
      refl
