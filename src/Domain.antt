-- ===== src/Domain.antt =====
-- internal/domain: the settings of a node's WEB transport.
pub mod WebPolicy
pub mod WebCapacity
