-- ===== src/Organization.antt =====
-- domain/organization/: the organization domain.
pub mod Entities
pub mod Code
pub mod Schema
pub mod Statements
pub mod Backend
pub mod Store
pub mod Seed
pub mod Logos
pub mod Service
pub mod Handler
pub mod Reads
pub mod LogoRoutes
mod Tests
pub mod Forest
pub mod Table
