-- ===== src/Agent.antt =====
-- The agents: package `agent` and its children.
pub mod Chat
pub mod TaskAgent
pub mod Workflow
pub mod Router
