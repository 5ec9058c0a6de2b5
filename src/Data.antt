-- ===== src/Data.antt =====
-- data/: the package over the database and the object store that the domains share.
pub mod Status
pub mod Storage
pub mod Seeds
pub mod Directives
