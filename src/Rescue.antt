-- ===== src/Rescue.antt =====
-- The rescue of a compromised account (internal/rescue): its fee policy.
pub mod Fees
