-- ===== src/Admin.antt =====
-- admin/: the administrative domains' handlers.
pub mod Schema
pub mod Storage
