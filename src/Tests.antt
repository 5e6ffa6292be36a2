-- ===== src/Tests.antt =====
-- Runs of the models, and each theorem of the list in Lib.antt at an input.
pub mod Data
mod Client
mod Page
mod Stations
mod Monitoring
mod Admin
mod Manager
mod Tooltips
