-- ===== src/Trading/Pricing/Pending.antt =====
-- Pending orders: what `validatePendingPrice` accepts, when an order triggers, and where it fills.
use mella_dashboard.Base.{◌≡◌, ◌↔◌, ◌≢◌, pos, ◌≤ℤ◌, true, false, some, none, arith, refl}
use mella_dashboard.Trading.Pricing.{
  Price, Side, buy, sell, OrderKind, market, limit, stop, Quote, finite, validate_pending_price,
  pending_triggered, pending_fill_price, fill_price,
}

-- A LIMIT or STOP price is accepted exactly when it is positive and would not trigger at the quote
-- that it is placed at.
pub validate_pending_price_iff :
    (side : Side) (kind : OrderKind) (price : Price) (q : Quote)
    → kind ≢ market
    → (validate_pending_price side kind (some (finite price)) q ≡ none)
      ↔ ((pos 1 ≤ℤ price) × (pending_triggered side kind price q ≡ false))
unfolding validate_pending_price pending_triggered
validate_pending_price_iff side market price q h = absurd (h refl)
validate_pending_price_iff buy limit price q h = ground arith
validate_pending_price_iff buy stop price q h = ground arith
validate_pending_price_iff sell limit price q h = ground arith
validate_pending_price_iff sell stop price q h = ground arith

-- An order that has triggered fills at the market price of its side: a LIMIT too, since its own price
-- is then no better than the market's.
pub pending_fill_price-triggered :
    (side : Side) (kind : OrderKind) (price : Price) (q : Quote)
    → pending_triggered side kind price q ≡ true
    → pending_fill_price side kind price q ≡ fill_price side q
unfolding pending_triggered pending_fill_price
pending_fill_price-triggered side market price q h = refl
pending_fill_price-triggered side stop price q h = refl
pending_fill_price-triggered buy limit price q h = ground arith
pending_fill_price-triggered sell limit price q h = ground arith

-- The price that a trader of the side never pays more, or gets less, than.
abbrev pub NoWorse : Side → Price → Price → Type 0
NoWorse buy price fill = fill ≤ℤ price
NoWorse sell price fill = price ≤ℤ fill

-- A LIMIT never fills at a price worse than its own, triggered or not.
pub pending_fill_price-limit :
    (side : Side) (price : Price) (q : Quote)
    → NoWorse side price (pending_fill_price side limit price q)
unfolding pending_fill_price
pending_fill_price-limit buy price q = ground arith
pending_fill_price-limit sell price q = ground arith
