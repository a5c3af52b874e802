-- ===== src/Graph.antt =====
-- The generations of the relationship graph in memory (app/analytics/graph_store.py).
pub mod Repository
pub mod Collection
pub mod Activity
pub mod Histories
mod Tests
