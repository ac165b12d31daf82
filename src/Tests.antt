-- ===== src/Tests.antt =====
-- Tests and witnesses, over one concrete instance of the code outside the repository.
pub mod World
pub mod Budget
pub mod Transitions
pub mod Amounts
pub mod Fees
pub mod Leases
pub mod Incidents
pub mod Finished
pub mod Quorum
