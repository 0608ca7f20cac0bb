-- ===== src/NodeDriver.antt =====
-- internal/nodedriver: how the panel talks to a node.
pub mod Convert
