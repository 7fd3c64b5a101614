-- ===== src/Services/Metrics.antt =====
-- The aggregates of src/lib/services/accountMetrics.ts over the tables of trades and positions. What
-- the source asks of SQL is computed here over the rows.
pub mod Days
use mella_dashboard.Base.{
  ℕ, ◌==◌, ltb, pos, ltb_ℤ, ◌+ℤ◌, neg_ℤ, Bool, true, false, not, ◌&&◌, Option, none, some, List, [],
  ◌∷◌, map, keep, count_if, length, if◌then◌else◌,
}
use mella_dashboard.Money.{Amount, round_currency}
use mella_dashboard.Services.Reset.{ResetTime, trading_day_key}
use mella_dashboard.Services.Store.{Trade, Position, is_open}

abbrev pub sum_of {ℓ} : {A : Type ℓ} → (A → Amount) → List A → Amount
sum_of f [] = pos 0
sum_of f (x ∷ xs) = f x +ℤ sum_of f xs

abbrev pub is_live : Option ℕ → Bool
is_live none = true
is_live (some archived) = false

-- `WHERE accountId = id AND archivedAt IS NULL`.
unfoldable pub trades_of : ℕ → List Trade → List Trade
trades_of id trades = keep (λ t. t.account_id == id && is_live t.archived_at) trades

abbrev pub closed_trades_of : ℕ → List Trade → List Trade
closed_trades_of id trades = keep (λ t. not (is_open t.status)) (trades_of id trades)

-- `coalesce(closeTime, openTime)`, as a trading day.
abbrev pub trade_day : ResetTime → Trade → ℕ
trade_day r t = trading_day_key (elim t.close_time [ some at ↦ at | none ↦ t.open_time ]) r

-- The net profit of a day is added to its group; the groups stand in the order of the days.
unfoldable pub add_to_day : ℕ → Amount → List (ℕ × Amount) → List (ℕ × Amount)
add_to_day day v [] = (day, v) ∷ []
add_to_day day v (g ∷ gs) =
    let later = g ∷ add_to_day day v gs in
    if day == g.0 then (day, v +ℤ g.1) ∷ gs else if ltb day g.0 then (day, v) ∷ g ∷ gs else later

unfoldable pub group_by_day : ResetTime → List Trade → List (ℕ × Amount)
group_by_day r [] = []
group_by_day r (t ∷ ts) = add_to_day (trade_day r t) t.net_profit (group_by_day r ts)

unfoldable pub daily_net_profits : ℕ → ResetTime → List Trade → List Amount
unfolding group_by_day trades_of
daily_net_profits id r trades =
    map (λ g. round_currency g.1) (group_by_day r (closed_trades_of id trades))

-- The columns of `aggregateTrades` that the services use.
pub record Aggregates : Type 0 where
  pub closed : ℕ
  pub realized : Amount
  pub unrealized_legacy : Amount
  pub wins : ℕ
  pub losses : ℕ
  pub gross_profit : Amount
  pub gross_loss : Amount
  pub trading_days : ℕ

abbrev pub won : Trade → Bool
won t = ltb_ℤ (pos 0) t.net_profit

abbrev pub lost : Trade → Bool
lost t = ltb_ℤ t.net_profit (pos 0)

unfoldable pub aggregate_trades : ℕ → ResetTime → List Trade → Aggregates
unfolding group_by_day trades_of
aggregate_trades id r trades =
    let done = closed_trades_of id trades in
    record {
      closed = length done;
      realized = sum_of (λ t. t.net_profit) done;
      unrealized_legacy =
          sum_of (λ t. t.profit) (keep (λ t. is_open t.status) (trades_of id trades));
      wins = count_if won done;
      losses = count_if lost done;
      gross_profit = sum_of (λ t. t.net_profit) (keep won done);
      gross_loss = neg_ℤ (sum_of (λ t. t.net_profit) (keep lost done));
      trading_days = length (group_by_day r done);
    }

unfoldable pub sum_open_position_floating : ℕ → List (ℕ × Position) → Amount
sum_open_position_floating id positions =
    sum_of (λ p. p.1.floating_pnl)
      (keep (λ p. p.1.account_id == id && is_open p.1.status) positions)
