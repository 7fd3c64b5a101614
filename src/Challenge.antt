-- ===== src/Challenge.antt =====
-- The rules of a challenge account: src/lib/services/challengeRules.ts.
pub mod Types
pub mod Rules
pub mod Consistency
pub mod Manual
mod Examples
