-- ===== src/Trading/Engine/Orders/Acceptance.antt =====
-- What an order that the engine accepts satisfies, src/trading/engine.ts.
use mella_dashboard.Base.{
  ℕ, ◌+◌, ◌≡◌, ◌≤ℤ◌, ltb_ℤ, Bool, true, false, Option, none, some, length, lookup, Option-cases,
  sym, ◌↔◌, inl, inr, arith, refl,
}
use mella_dashboard.Money.{Amount}
use mella_dashboard.Trading.Pricing.{
  Price, Volume, Quote, Rate, OrderKind, market, limit, stop, RejectCode, required_margin,
  fill_price, validate_stops, validate_volume, validate_pending_price, round_price,
}
use mella_dashboard.Trading.Fx.{Crosses, rate}
use mella_dashboard.Trading.Engine.{Instrument, EngineAccount}
use mella_dashboard.Trading.Engine.Market.{
  Sessions, Market, EngineQuote, fresh_quote, rule_restriction,
}
use mella_dashboard.Trading.Engine.Orders.{
  OrderRequest, OrderCheck, accepted, is_tradable, free_margin, unless, reject_if, check_margin,
  check_price, volume_of, over_positions, over_size, requested, check_volume, check_instrument,
  check_order,
}

-- The price of the order: the quote's for a market order, else the requested one, on its side of the
-- market, rounded to the digits of the instrument.
abbrev pub HasPrice : OrderRequest → Instrument → Quote → OrderKind → Price → Type 0
HasPrice o inst q market p = p ≡ fill_price o.side q
HasPrice o inst q limit p =
    (validate_pending_price o.side limit o.price q ≡ none)
    × (p ≡ round_price (requested o.price) inst.digits)
HasPrice o inst q stop p =
    (validate_pending_price o.side stop o.price q ≡ none)
    × (p ≡ round_price (requested o.price) inst.digits)

-- Everything that holds of an accepted order.
pub record IsAcceptable (s : Sessions) (x : Crosses) (m : Market) (now : ℕ) (a : EngineAccount)
    (o : OrderRequest) (v : Volume) (p : Price) (margin : Amount) (inst : Instrument)
    (q : EngineQuote) (r : Rate) : Type 0 where
  pub live : a.breaching ≡ false
  pub tradable : is_tradable a.status ≡ true
  pub known : lookup o.symbol m.instruments ≡ some inst
  pub enabled : inst.enabled ≡ true
  pub unrestricted : rule_restriction s m now inst a.snapshot ≡ none
  pub fresh : fresh_quote o.symbol m ≡ some q
  pub volume_ok : validate_volume o.volume inst.volume_rules ≡ none
  pub volume : v ≡ volume_of o.volume
  pub room : over_positions a.snapshot.max_positions (length a.positions + length a.pending) ≡ false
  pub size_ok : over_size a.snapshot.max_position_size v ≡ false
  pub convertible : rate x inst.currencies.quote m.fx ≡ some r
  pub priced : HasPrice o inst q.effective o.kind p
  pub stops_ok : validate_stops o.side p o.stop_loss o.take_profit ≡ none
  pub margin_known : margin ≡ required_margin v inst.contract_size p r a.snapshot.leverage
  pub affordable : margin ≤ℤ free_margin a

unless-accepted :
    (e : Option RejectCode) (c : OrderCheck) (v : Volume) (p : Price) (g : Amount)
    → unless e c ≡ accepted v p g
    → (e ≡ none) × (c ≡ accepted v p g)
unfolding unless
unless-accepted none c v p g h = (refl, h)
unless-accepted (some code) c v p g h = absurd (ground arith)

reject_if-none : (b : Bool) (code : RejectCode) → reject_if b code ≡ none → b ≡ false
reject_if-none b code h = ground arith

-- What the checks at the price of the order leave.
abbrev Margined :
    EngineAccount → Instrument → Rate → OrderRequest → Volume → Volume → Price → Amount → Type 0
Margined a inst r o w v p g =
    (v ≡ w)
    × (validate_stops o.side p o.stop_loss o.take_profit ≡ none)
    × (g ≡ required_margin v inst.contract_size p r a.snapshot.leverage)
    × (g ≤ℤ free_margin a)

check_margin-accepted :
    (a : EngineAccount) (inst : Instrument) (r : Rate) (o : OrderRequest) (w v : Volume)
    (q p : Price) (g : Amount)
    → check_margin a inst r o w q ≡ accepted v p g
    → (p ≡ q) × Margined a inst r o w v p g
unfolding check_margin
check_margin-accepted a inst r o w v q p g h =
    let (stops, h1) = unless-accepted _ _ v p g h in
    let (free, h2) = unless-accepted _ _ v p g h1 in
    (cc, (cc, cc, cc, ground (arith, reject_if-none _ _ free, h2)))

check_price-accepted :
    (a : EngineAccount) (inst : Instrument) (r : Rate) (q : Quote) (o : OrderRequest)
    (kind : OrderKind) (w v : Volume) (p : Price) (g : Amount)
    → check_price a inst r q o kind w ≡ accepted v p g
    → HasPrice o inst q kind p × Margined a inst r o w v p g
unfolding check_price
check_price-accepted a inst r q o market w v p g h =
    check_margin-accepted a inst r o w v (fill_price o.side q) p g h
check_price-accepted a inst r q o limit w v p g h =
    let (side, h1) = unless-accepted _ _ v p g h in
    let (price, rest) =
      check_margin-accepted a inst r o w v (round_price (requested o.price) inst.digits) p g h1 in
    ((side, price), rest)
check_price-accepted a inst r q o stop w v p g h =
    let (side, h1) = unless-accepted _ _ v p g h in
    let (price, rest) =
      check_margin-accepted a inst r o w v (round_price (requested o.price) inst.digits) p g h1 in
    ((side, price), rest)

check_volume-accepted :
    (a : EngineAccount) (inst : Instrument) (r : Option Rate) (q : Quote) (o : OrderRequest)
    (v : Volume) (p : Price) (g : Amount)
    → check_volume a inst r q o ≡ accepted v p g
    → (s : Rate) × (r ≡ some s)
      × (validate_volume o.volume inst.volume_rules ≡ none)
      × (over_positions a.snapshot.max_positions (length a.positions + length a.pending) ≡ false)
      × (over_size a.snapshot.max_position_size (volume_of o.volume) ≡ false)
      × HasPrice o inst q o.kind p
      × Margined a inst s o (volume_of o.volume) v p g
unfolding check_volume
check_volume-accepted a inst none q o v p g h =
    let (valid, h1) = unless-accepted _ _ v p g h in
    let (room, h2) = unless-accepted _ _ v p g h1 in
    let (size, h3) = unless-accepted _ _ v p g h2 in absurd (ground (arith, h3))
check_volume-accepted a inst (some s) q o v p g h =
    let (valid, h1) = unless-accepted _ _ v p g h in
    let (room, h2) = unless-accepted _ _ v p g h1 in
    let (size, h3) = unless-accepted _ _ v p g h2 in
    let (price, rest) = check_price-accepted a inst s q o o.kind (volume_of o.volume) v p g h3 in
    (s, refl, valid, reject_if-none _ _ room, reject_if-none _ _ size, price, rest)

check_order-accepted :
    (s : Sessions) (x : Crosses) (m : Market) (now : ℕ) (a : EngineAccount) (o : OrderRequest)
    (v : Volume) (p : Price) (g : Amount)
    → check_order s x m now a o ≡ accepted v p g
    → (inst : Instrument) × (q : EngineQuote) × (r : Rate) × IsAcceptable s x m now a o v p g inst q
        r
unfolding check_order check_instrument
check_order-accepted s x m now a o v p g h =
    let (live, h1) = unless-accepted _ _ v p g h in
    elim (Option-cases (lookup o.symbol m.instruments)) [
      | inl e ↦ absurd (ground (arith, rw e at h1))
      | inr (inst, e) ↦
          let (enabled, h2) = unless-accepted _ _ v p g (rw e at h1) in
          let (unrestricted, h3) = unless-accepted _ _ v p g h2 in
          elim (Option-cases (fresh_quote o.symbol m)) [
            | inl f ↦ absurd (ground (arith, rw f at h3))
            | inr (q, f) ↦
                let (r, convertible, valid, room, size, priced, (volume, stops, margin, free)) =
                  check_volume-accepted a inst (rate x inst.currencies.quote m.fx) q.effective o v p
                    g (rw f at h3) in
                (
                  inst,
                  q,
                  r,
                  record {
                    live = ground (arith, reject_if-none _ _ live);
                    tradable = ground (arith, reject_if-none _ _ live);
                    known = e;
                    enabled = ground (arith, reject_if-none _ _ enabled);
                    unrestricted = unrestricted;
                    fresh = f;
                    volume_ok = valid;
                    volume = volume;
                    room = room;
                    size_ok = rw volume size;
                    convertible = convertible;
                    priced = priced;
                    stops_ok = stops;
                    margin_known = margin;
                    affordable = free;
                  },
                )
          ]
    ]

below_free : (g free : Amount) → g ≤ℤ free → ltb_ℤ free g ≡ false
below_free g free h = ground arith

acceptable-check_margin :
    (a : EngineAccount) (inst : Instrument) (r : Rate) (o : OrderRequest) (w v : Volume) (p : Price)
    (g : Amount)
    → Margined a inst r o w v p g
    → check_margin a inst r o w p ≡ accepted v p g
unfolding check_margin unless
acceptable-check_margin a inst r o w v p g (e, stops, margin, free) =
    rw (stops, margin, e, below_free _ _ (rw (margin, e) at free)) refl

acceptable-check_price :
    (a : EngineAccount) (inst : Instrument) (r : Rate) (q : Quote) (o : OrderRequest)
    (kind : OrderKind) (w v : Volume) (p : Price) (g : Amount)
    → HasPrice o inst q kind p
    → Margined a inst r o w v p g
    → check_price a inst r q o kind w ≡ accepted v p g
unfolding check_price unless
acceptable-check_price a inst r q o market w v p g h k =
    rw (sym h) (acceptable-check_margin a inst r o w v p g k)
acceptable-check_price a inst r q o limit w v p g (side, h) k =
    rw (side, sym h) (acceptable-check_margin a inst r o w v p g k)
acceptable-check_price a inst r q o stop w v p g (side, h) k =
    rw (side, sym h) (acceptable-check_margin a inst r o w v p g k)

acceptable-check_order :
    (s : Sessions) (x : Crosses) (m : Market) (now : ℕ) (a : EngineAccount) (o : OrderRequest)
    (v : Volume) (p : Price) (g : Amount) (inst : Instrument) (q : EngineQuote) (r : Rate)
    → IsAcceptable s x m now a o v p g inst q r
    → check_order s x m now a o ≡ accepted v p g
unfolding check_order check_instrument check_volume unless
acceptable-check_order s x m now a o v p g inst q r h =
    simp
      (
        check_order,
        h.live,
        h.tradable,
        h.known,
        h.enabled,
        h.unrestricted,
        h.fresh,
        h.volume_ok,
        h.room,
        sym h.volume,
        h.size_ok,
        h.convertible,
      )
      (acceptable-check_price a inst r q.effective o o.kind v v p g h.priced
        (refl, h.stops_ok, h.margin_known, h.affordable))

-- The engine accepts an order exactly when it comes from a tradable account that is not breaching,
-- for a known and enabled instrument outside the account's rule windows with a fresh quote; its volume
-- is the valid requested one, rounded, within the account's limits; its price is the quote's, or the
-- requested one on its side of the market; its stops are valid at that price, and its margin is the
-- required one and no more than the free margin.
pub check_order_iff :
    (s : Sessions) (x : Crosses) (m : Market) (now : ℕ) (a : EngineAccount) (o : OrderRequest)
    (v : Volume) (p : Price) (g : Amount)
    → (check_order s x m now a o ≡ accepted v p g) ↔ (
        (inst : Instrument) × (q : EngineQuote) × (r : Rate) × IsAcceptable s x m now a o v p g inst
          q r)
check_order_iff s x m now a o v p g = (
  check_order-accepted s x m now a o v p g,
  (λ (inst, q, r, h). acceptable-check_order s x m now a o v p g inst q r h),
)
