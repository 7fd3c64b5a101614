-- ===== src/Trading/Router/Table/Routes.antt =====
-- What `setRoutes` keeps, and the bound of the history.
use mella_dashboard.Base.{
  ℕ, ◌+◌, ◌≤◌, ◌≡◌, ◌≢◌, ◌⊎◌, ◌↔◌, ◌∙◌, Bool-cases, Bool, true, false, Option, none, some, List, [],
  ◌∷◌, ◌++◌, arith, refl, length, length-append, lookup, lookup-insert, any, ltb, lookup-keep,
  Option-cases, inl, inr, ◌==◌, if◌then◌else◌,
}
use native.Mathlib.Decide.{ℕ_discrete}
use mella_dashboard.Trading.Router.Symbol.{Source, FeedRoute, FeedSwitchEvent, Options, SymbolState}
use mella_dashboard.Trading.Router.Symbol.Forwarding.{IsRouted}
use mella_dashboard.Trading.Router.Table.{
  FeedRouter, normalize_route, fresh_state, set_route, install, set_routes, remember, unchanged,
  same_source, effective_backup, tail_of,
}

-- Installing a route makes a well-formed state, whatever was there before.
pub fresh_state-IsRouted :
    (o : Options) (now : ℕ) (r : FeedRoute) (existing : Option SymbolState)
    → IsRouted (fresh_state o now (normalize_route r) existing)
unfolding fresh_state normalize_route
fresh_state-IsRouted o now r existing = ground arith

length-tail_of :
    (es : List FeedSwitchEvent) (size : ℕ)
    → length es ≤ size + 1
    → length (if ltb size (length es) then tail_of es else es) ≤ size
length-tail_of [] size h = ground arith
length-tail_of (e ∷ es) size h = ground arith

-- The history never grows past its size.
pub length-remember :
    (size : ℕ) (history es : List FeedSwitchEvent)
    → length history ≤ size
    → length (remember size history es) ≤ size
unfolding remember
length-remember size history [] h = h
length-remember size history (e ∷ es) h =
    let pushed = history ++ (e ∷ []) in
    length-remember size (if ltb size (length pushed) then tail_of pushed else pushed) es
      (length-tail_of pushed size (omega (arith, length-append history (e ∷ []))))

abbrev pub routes_symbol : List FeedRoute → ℕ → Bool
routes_symbol rs j = any (λ (r : FeedRoute). r.symbol == j) rs

-- The state that a route leads to: the one there was, if neither source changed, else a fresh one.
abbrev routed : Options → ℕ → FeedRoute → Option SymbolState → SymbolState
routed o now route none = fresh_state o now route none
routed o now route (some st) =
    if unchanged route (some st) then st else fresh_state o now route (some st)

lookup-set_route :
    (o : Options) (now j : ℕ) (r : FeedRoute) (m : List (ℕ × SymbolState))
    → lookup j (set_route o now (normalize_route r) m) ≡ (
        if r.symbol == j
        then some (routed o now (normalize_route r) (lookup r.symbol m))
        else lookup j m)
unfolding set_route normalize_route
lookup-set_route o now j r m =
    let existing = lookup r.symbol m in
    let step = lookup-insert r.symbol j (fresh_state o now (normalize_route r) existing) m in
    elim (ℕ_discrete r.symbol j) [
      | yes e ↦ elim (Option-cases existing) [
        | inl f ↦ ground (arith, step)
        | inr (st, f) ↦ ground (arith, step)
      ]
      | no n ↦ ground (arith, step)
    ]

install-other :
    (o : Options) (now j : ℕ) (rs : List FeedRoute) (m : List (ℕ × SymbolState))
    → routes_symbol rs j ≡ false
    → lookup j (install o now rs m) ≡ lookup j m
unfolding install
install-other o now j [] m h = refl
install-other o now j (r ∷ rs) m h = ground (
  arith,
  install-other o now j rs (set_route o now (normalize_route r) m),
  lookup-set_route o now j r m,
)

install-one :
    (o : Options) (now : ℕ) (rs : List FeedRoute) (r : FeedRoute) (rs' : List FeedRoute)
    (m : List (ℕ × SymbolState))
    → routes_symbol rs r.symbol ≡ false
    → routes_symbol rs' r.symbol ≡ false
    → lookup r.symbol (install o now (rs ++ (r ∷ rs')) m)
      ≡ some (routed o now (normalize_route r) (lookup r.symbol m))
unfolding install
install-one o now [] r rs' m h k = ground (
  arith,
  install-other o now r.symbol rs' (set_route o now (normalize_route r) m) k,
  lookup-set_route o now r.symbol r m,
)
install-one o now (q ∷ rs) r rs' m h k = ground (
  arith,
  install-one o now rs r rs' (set_route o now (normalize_route q) m),
  lookup-set_route o now r.symbol q m,
)

routes_symbol_self :
    (rs : List FeedRoute) (r : FeedRoute) (rs' : List FeedRoute)
    → routes_symbol (rs ++ (r ∷ rs')) r.symbol ≡ true
routes_symbol_self [] r rs' = ground arith
routes_symbol_self (q ∷ rs) r rs' = ground (arith, routes_symbol_self rs r rs')

-- The backup of a route: none if it is the primary itself.
abbrev pub IsBackup : FeedRoute → Option Source → Type 0
IsBackup r b =
    ((r.backup ≡ some r.primary) × (b ≡ none)) ⊎ ((r.backup ≢ some r.primary) × (b ≡ r.backup))

-- The state has the sources of the route.
abbrev pub HasSources : FeedRoute → SymbolState → Type 0
HasSources r st = (st.route.primary ≡ r.primary) × IsBackup r st.route.backup

-- The state of a symbol that starts over: on the primary of its route, since now.
pub record IsFreshState (r : FeedRoute) (now : ℕ) (st : SymbolState) : Type 0 where
  pub sources : HasSources r st
  pub on_primary : st.active ≡ r.primary
  pub since_now : (st.active_since ≡ now) × (st.since ≡ now)
  pub no_failback : st.failback_due_bucket ≡ none

backup-IsBackup :
    (r : FeedRoute) (b : Option Source)
    → (same_source b (effective_backup r.primary r.backup) ≡ true) ↔ IsBackup r b
backup-IsBackup r b = elim (Option-cases r.backup) [
  | inl n ↦ elim (Option-cases b) [
    | inl m ↦ rw (n, m) (ground arith)
    | inr (y, m) ↦ rw (n, m) (ground arith)
  ]
  | inr (x, n) ↦ elim (Bool-cases (x == r.primary)) [
    | inl e ↦ elim (Option-cases b) [
      | inl m ↦ rw (n, m) (rw e (ground arith))
      | inr (y, m) ↦ rw (n, m) (rw e (ground arith))
    ]
    | inr e ↦ elim (Option-cases b) [
      | inl m ↦ rw (n, m) (rw e (ground arith))
      | inr (y, m) ↦ rw (n, m) (rw e (ground arith))
    ]
  ]
]

unchanged-HasSources :
    (r : FeedRoute) (st : SymbolState)
    → (unchanged (normalize_route r) (some st) ≡ true) ↔ HasSources r st
unfolding normalize_route
unchanged-HasSources r st =
    let (to, from) = backup-IsBackup r st.route.backup in
    (λ h. (ground arith, to (ground arith)), λ (p, b). let k = from b in ground arith)

fresh_state-IsFreshState :
    (o : Options) (now : ℕ) (r : FeedRoute) (existing : Option SymbolState)
    → IsFreshState r now (fresh_state o now (normalize_route r) existing)
unfolding fresh_state normalize_route
fresh_state-IsFreshState o now r existing = record {
  sources = (refl, (backup-IsBackup r (effective_backup r.primary r.backup)).0 (ground arith));
  on_primary = refl;
  since_now = (refl, refl);
  no_failback = refl;
}

-- After `setRoutes` with one route for a symbol: a state with the route's sources is kept as it is, an
-- active failover included; where there is no such state, the symbol starts over on its primary; and a
-- symbol with no route is dropped.
pub set_routes_lem :
    (o : Options) (now : ℕ) (rs : List FeedRoute) (r : FeedRoute) (rs' : List FeedRoute)
    (router : FeedRouter) (dropped : ℕ)
    → routes_symbol rs r.symbol ≡ false
    → routes_symbol rs' r.symbol ≡ false
    → routes_symbol (rs ++ (r ∷ rs')) dropped ≡ false
    → let symbols = (set_routes o now (rs ++ (r ∷ rs')) router).symbols in
      ((st : SymbolState)
        → lookup r.symbol router.symbols ≡ some st
        → HasSources r st
        → lookup r.symbol symbols ≡ some st)
      × (((st : SymbolState) → lookup r.symbol router.symbols ≡ some st → ¬ HasSources r st)
          → (after : SymbolState) × (lookup r.symbol symbols ≡ some after)
            × IsFreshState r now after)
      × (lookup dropped symbols ≡ none)
unfolding set_routes
set_routes_lem o now rs r rs' router dropped h k d =
    let routes = rs ++ (r ∷ rs') in
    let route = normalize_route r in
    let m = install o now routes router.symbols in
    let installed : lookup r.symbol (set_routes o now routes router).symbols
        ≡ some (routed o now route (lookup r.symbol router.symbols)) =
      ground (
        arith,
        lookup-keep (routes_symbol routes) r.symbol m,
        install-one o now rs r rs' router.symbols h k,
        routes_symbol_self rs r rs',
      ) in
    (
      λ st e sources. installed ∙ rw e (rw ((unchanged-HasSources r st).1 sources) refl),
      λ changed. elim (Option-cases (lookup r.symbol router.symbols)) [
        | inl n ↦ (
          fresh_state o now route none,
          installed ∙ rw n refl,
          fresh_state-IsFreshState o now r none,
        )
        | inr (st, e) ↦ elim (Bool-cases (unchanged route (some st))) [
          | inl same ↦ absurd (changed st e ((unchanged-HasSources r st).0 same))
          | inr other ↦ (
            fresh_state o now route (some st),
            installed ∙ rw e (rw other refl),
            fresh_state-IsFreshState o now r (some st),
          )
        ]
      ],
      ground (arith, lookup-keep (routes_symbol routes) dropped m),
    )
