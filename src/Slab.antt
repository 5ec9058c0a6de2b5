-- ===== src/Slab.antt =====
-- tools/slab: the client's own logic, beside its requests and its scenarios.
pub mod Style
pub mod Input
pub mod Repo
