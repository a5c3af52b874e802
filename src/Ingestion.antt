-- ===== src/Ingestion.antt =====
-- Durable ingestion (app/transport/ingestion.py).
pub mod Types
pub mod RawChange
pub mod Repository
pub mod Projection
pub mod Service
pub mod Groups
pub mod Contents
pub mod Deltas
pub mod Refinement
pub mod Invariant
pub mod Commits
pub mod Handlers
pub mod Replacements
pub mod Outcomes
pub mod Records
pub mod Resends
pub mod Histories
mod Tests
