-- ===== src/Api.antt =====
-- internal/api: the panel's HTTP interface.
pub mod RateLimit
pub mod TokenPolicy
pub mod Session
