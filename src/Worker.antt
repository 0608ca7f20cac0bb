-- ===== src/Worker.antt =====
-- internal/worker: the panel's background loops.
pub mod ApplySchedule
pub mod Notifications
pub mod Incidents
pub mod ReliabilityNotifications
