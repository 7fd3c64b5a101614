-- ===== src/Trading/News.antt =====
-- The news rule, src/trading/news.ts. A currency is the number of its trimmed code in capitals, 0 for
-- the empty one; instants and lengths are numbers of milliseconds.
pub mod Covering
mod Examples
use mella_dashboard.Base.{
  ℕ, ◌+◌, ◌*◌, ltb, leb, ◌==◌, Bool, not, ◌&&◌, ◌||◌, ℤ, pos, ◌-ℤ◌, ltb_ℤ, Option, none, some, List,
  [], ◌∷◌, keep, if◌then◌else◌,
}

pub record NewsEvent : Type 0 where
  pub id : ℕ
  pub currency : ℕ
  pub scheduled_at : ℕ

-- The currencies of an instrument.
pub record Currencies : Type 0 where
  pub base : ℕ
  pub quote : ℕ

pub record NewsWindow : Type 0 where
  pub event : NewsEvent
  pub start : ℤ
  pub end : ℕ

unfoldable pub affects_instrument : NewsEvent → Currencies → Bool
affects_instrument event inst =
    not (event.currency == 0) && (inst.base == event.currency || inst.quote == event.currency)

unfoldable pub window_of : NewsEvent → ℕ → NewsWindow
window_of event window_ms = record {
  event = event;
  start = pos event.scheduled_at -ℤ pos window_ms;
  end = event.scheduled_at + window_ms;
}

-- `now < w.start || now > w.end`.
unfoldable pub outside : ℕ → NewsWindow → Bool
outside now w = ltb_ℤ (pos now) w.start || ltb w.end now

-- `!best || w.end > best.end`.
unfoldable pub later : NewsWindow → Option NewsWindow → NewsWindow
later w none = w
later w (some best) = if ltb best.end w.end then w else best

-- The loop of `activeNewsWindow`, with the best window so far.
unfoldable pub best_window :
    List NewsEvent → Currencies → ℕ → ℕ → Option NewsWindow → Option NewsWindow
unfolding affects_instrument window_of outside later
best_window [] inst now window_ms best = best
best_window (e ∷ events) inst now window_ms best =
    let w = window_of e window_ms in
    best_window events inst now window_ms
      (if not (affects_instrument e inst) || outside now w then best else some (later w best))

unfoldable pub active_news_window : List NewsEvent → Currencies → ℕ → ℕ → Option NewsWindow
unfolding best_window
active_news_window events inst now window_ms =
    if leb window_ms 0 then none else best_window events inst now window_ms none
