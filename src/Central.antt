-- ===== src/Central.antt =====
-- The page of the central system: web/js/central_system.js, the class `CentralSystem`.
pub mod State
pub mod View
pub mod Selection
pub mod Commands
pub mod Events
pub mod Blind
pub mod Settling
pub mod Closed
pub mod Accounts
pub mod Logs
pub mod Reactions
pub mod Guards
pub mod Choice
pub mod Listing
pub mod Notices
pub mod Once
