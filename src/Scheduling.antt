-- ===== src/Scheduling.antt =====
-- The projection scheduler (app/analytics/scheduling.py).
pub mod Types
pub mod Executor
pub mod Slots
pub mod Admission
pub mod Publication
pub mod Recovery
pub mod Drain
pub mod Closing
pub mod Ownership
pub mod Transfers
pub mod Steps
pub mod Eviction
pub mod Launching
pub mod Rounds
pub mod Raising
pub mod Advances
pub mod Soundness
pub mod Capacity
pub mod Admissions
pub mod Settlement
pub mod Closure
pub mod Progress
pub mod Losses
pub mod Stranded
mod Tests
