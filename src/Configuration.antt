-- ===== src/Configuration.antt =====
-- The Agent configuration authority (app/services/agent_configuration.py).
pub mod Types
pub mod Revisions
pub mod Repository
pub mod Authority
pub mod Invariant
pub mod Reports
pub mod Bindings
pub mod Publishing
pub mod Publications
mod Tests
