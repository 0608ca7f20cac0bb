-- ===== src/Agent.antt =====
-- internal/agent: the agent of a node, which runs the engine and repairs it.
pub mod Files
pub mod Egress
pub mod Recovery
pub mod Configure
pub mod Lives
pub mod Update
pub mod Apply
pub mod Samples
