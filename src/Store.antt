-- ===== src/Store.antt =====
-- The durable store of the rescuer (internal/store): its leases and rescue incidents.
pub mod Types
pub mod Lease
pub mod Incident
