-- ===== src/Trading/Engine/Orders.antt =====
-- The checks of `placeOrder`, src/trading/engine.ts, up to the call of the ledger or the database.
pub mod Acceptance
use mella_dashboard.Base.{
  ℕ, ◌+◌, ltb, leb, ℤ, pos, ltb_ℤ, ◌+ℤ◌, ◌-ℤ◌, Bool, true, false, not, ◌&&◌, ◌||◌, Option, none,
  some, length, lookup, if◌then◌else◌,
}
use mella_dashboard.Money.{Amount, round_currency}
use mella_dashboard.Challenge.Types.{
  AccountStatus, active, passed, failed, funded, suspended, frozen,
}
use mella_dashboard.Trading.Pricing.{
  Price, Volume, Side, OrderKind, market, limit, stop, Quote, Rate, JsNumber, finite, not_finite,
  RejectCode, account_not_tradable, unknown_symbol, market_halted, max_positions, max_position_size,
  no_fx_path, insufficient_margin, invalid_price, fill_price, required_margin, round_price,
  round_volume, validate_volume, validate_stops, validate_pending_price,
}
use mella_dashboard.Trading.Fx.{Crosses, rate}
use mella_dashboard.Trading.Engine.{Instrument, EngineRules, EngineAccount}
use mella_dashboard.Trading.Engine.Market.{Sessions, Market, fresh_quote, rule_restriction}

-- What the client asks for.
pub record OrderRequest : Type 0 where
  pub symbol : ℕ
  pub side : Side
  pub kind : OrderKind
  pub volume : JsNumber
  pub price : Option JsNumber
  pub stop_loss : Option JsNumber
  pub take_profit : Option JsNumber

-- A refusal, or the volume, the price and the margin with which the order goes on: to `openPosition`
-- for a market order, else to a pending row.
pub data OrderCheck : Type 0 where
  rejected : RejectCode → OrderCheck
  accepted : Volume → Price → Amount → OrderCheck

-- `TRADABLE`.
abbrev pub is_tradable : AccountStatus → Bool
is_tradable active = true
is_tradable funded = true
is_tradable passed = false
is_tradable failed = false
is_tradable suspended = false
is_tradable frozen = false

-- `acct.equity - acct.marginUsed`, rounded.
unfoldable pub free_margin : EngineAccount → Amount
free_margin a = round_currency (a.equity -ℤ a.margin_used)

-- A rejection, if there is one, else the rest of the checks.
unfoldable pub unless : Option RejectCode → OrderCheck → OrderCheck
unless none rest = rest
unless (some code) rest = rejected code

abbrev pub reject_if : Bool → RejectCode → Option RejectCode
reject_if true code = some code
reject_if false code = none

-- The stops and the margin at the price of the order.
unfoldable pub check_margin :
    EngineAccount → Instrument → Rate → OrderRequest → Volume → Price → OrderCheck
check_margin a inst r o volume price =
    let margin = required_margin volume inst.contract_size price r a.snapshot.leverage in
    unless (validate_stops o.side price o.stop_loss o.take_profit) (
      unless (reject_if (ltb_ℤ (free_margin a) margin) insufficient_margin)
        (accepted volume price margin))

-- `m.price as number`, which `validatePendingPrice` has accepted.
abbrev pub requested : Option JsNumber → Price
requested none = pos 0
requested (some not_finite) = pos 0
requested (some (finite p)) = p

unfoldable pub check_price :
    EngineAccount → Instrument → Rate → Quote → OrderRequest → OrderKind → Volume → OrderCheck
check_price a inst r q o market volume = check_margin a inst r o volume (fill_price o.side q)
check_price a inst r q o limit volume =
    unless (validate_pending_price o.side limit o.price q)
      (check_margin a inst r o volume (round_price (requested o.price) inst.digits))
check_price a inst r q o stop volume =
    unless (validate_pending_price o.side stop o.price q)
      (check_margin a inst r o volume (round_price (requested o.price) inst.digits))

-- `roundVolume(Number(m.volume))`.
abbrev pub volume_of : JsNumber → Volume
volume_of not_finite = pos 0
volume_of (finite v) = round_volume v

-- A limit of null or 0 is none.
abbrev pub over_positions : Option ℕ → ℕ → Bool
over_positions none n = false
over_positions (some most) n = ltb 0 most && leb most n

-- 1e-9 lots are ten units.
abbrev pub over_size : Option Volume → Volume → Bool
over_size none v = false
over_size (some most) v = ltb_ℤ (pos 0) most && ltb_ℤ (most +ℤ pos 10) v

-- The volume and the limits of the account, with the quote and the rate at hand.
unfoldable pub check_volume :
    EngineAccount → Instrument → Option Rate → Quote → OrderRequest → OrderCheck
check_volume a inst r q o =
    let volume = volume_of o.volume in
    unless (validate_volume o.volume inst.volume_rules) (
      unless
        (reject_if (over_positions a.snapshot.max_positions (length a.positions + length a.pending))
          max_positions)
        (unless (reject_if (over_size a.snapshot.max_position_size volume) max_position_size)
          (elim r [
            | none ↦ rejected no_fx_path
            | some rate ↦ check_price a inst rate q o o.kind volume
          ])))

unfoldable pub check_instrument :
    Sessions → Crosses → Market → ℕ → EngineAccount → OrderRequest → Instrument → OrderCheck
check_instrument s x m now a o inst = unless (reject_if (not inst.enabled) unknown_symbol) (
    unless (rule_restriction s m now inst a.snapshot) (elim (fresh_quote o.symbol m) [
      | none ↦ rejected market_halted
      | some q ↦ check_volume a inst (rate x inst.currencies.quote m.fx) q.effective o
    ]))

unfoldable pub check_order :
    Sessions → Crosses → Market → ℕ → EngineAccount → OrderRequest → OrderCheck
check_order s x m now a o =
    unless (reject_if (a.breaching || not (is_tradable a.status)) account_not_tradable)
      (elim (lookup o.symbol m.instruments) [
        | none ↦ rejected unknown_symbol
        | some inst ↦ check_instrument s x m now a o inst
      ])
