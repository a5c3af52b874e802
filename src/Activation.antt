-- ===== src/Activation.antt =====
-- The ledger of projection activations (app/persistence/projection_activation.py).
pub mod Types
pub mod Ledger
pub mod Steps
pub mod Changes
pub mod Epochs
pub mod Invariant
pub mod Preservation
pub mod Witnesses
mod Tests
