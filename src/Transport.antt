-- ===== src/Transport.antt =====
-- The transport manager (app/transport/manager.py).
pub mod Types
pub mod Leases
pub mod Presence
pub mod Tickets
pub mod Authentication
pub mod Credentials
pub mod Fences
pub mod Handover
pub mod Steps
pub mod Expiry
pub mod Observations
mod Tests
