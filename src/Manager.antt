-- ===== src/Manager.antt =====
-- The page of `StationManager` of web/js/central_system_bak.js.
pub mod State
pub mod View
pub mod Selection
pub mod Commands
pub mod Events
pub mod Protocol
pub mod Upkeep
pub mod Reactions
pub mod History
pub mod Listing
pub mod Choosing
pub mod Frames
pub mod Sequence
pub mod Notices
pub mod Chosen
pub mod Boot
