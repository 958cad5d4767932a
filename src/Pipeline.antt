-- ===== src/Pipeline.antt =====
-- Pipelines: scenara/platform/pipeline.py.
pub mod Definition
pub mod Counts
pub mod Graph
pub mod Registry
pub mod Topology
pub mod Visits
pub mod Linked
pub mod Examples
