-- ===== src/Monitoring.antt =====
-- `MonitoringSystem` of web/client/js/monitoring.js.
pub mod State
pub mod Values
pub mod Metrics
pub mod Commands
pub mod Events
pub mod Journal
pub mod Uptime
pub mod Mirror
pub mod Answers
pub mod Failures
pub mod Kept
pub mod History
pub mod Reactions
