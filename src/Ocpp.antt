-- ===== src/Ocpp.antt =====
-- `OCPPSystem` of web/js/index.js.
pub mod State
pub mod View
pub mod Updates
pub mod Shown
pub mod Commands
pub mod Loading
pub mod Table
pub mod Demo
pub mod Events
pub mod Reactions
pub mod Connectors
pub mod Upkeep
pub mod History
pub mod Sequence
