-- ===== src/Budget.antt =====
-- The budget ledger (internal/budget).
pub mod Types
pub mod Cost
pub mod Codec
pub mod State
pub mod Usage
pub mod Operations
pub mod Queries
pub mod Opening
