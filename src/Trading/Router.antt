-- ===== src/Trading/Router.antt =====
-- src/trading/feeds/router.ts: the choice between the primary and the backup feed of a symbol.
-- Symbols and sources are numbers, times are milliseconds. What the listeners see is returned: the
-- switch events and the forwarded ticks, in order.
pub mod Symbol
pub mod Invariant
pub mod Table
mod Examples
