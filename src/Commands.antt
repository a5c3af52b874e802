-- ===== src/Commands.antt =====
-- Command orchestration (app/services/command_execution.py).
pub mod Types
pub mod Repository
pub mod Service
pub mod Results
pub mod Invariant
pub mod Preservation
pub mod Recording
pub mod Expiry
pub mod Delivery
pub mod Histories
mod Tests
