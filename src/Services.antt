-- ===== src/Services.antt =====
-- The services of src/lib/services on the database.
pub mod Reset
pub mod Store
pub mod Metrics
pub mod Engine
pub mod Ledger
pub mod Coupons
pub mod Payouts
pub mod Referrals
pub mod Purchases
mod Examples
