-- ===== src/Document.antt =====
-- domain/document/: the document domain.
pub mod Entities
pub mod Store
pub mod Service
pub mod Handler
pub mod Seeds
mod Tests
