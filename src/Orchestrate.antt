-- ===== src/Orchestrate.antt =====
-- The orchestration engine: package `orchestrate`.
pub mod Node
pub mod Topology
pub mod Cycle
pub mod Connected
pub mod Dag
pub mod Backpressure
pub mod Validation
pub mod Graph
pub mod Compensate
pub mod Loop
pub mod Conditional
pub mod Checkpoint
