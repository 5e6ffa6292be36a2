-- ===== src/Admin.antt =====
-- web/client/admin/js/admin.js: `AdminPanel`.
pub mod State
pub mod Events
pub mod Reading
pub mod History
pub mod Edits
