-- ===== src/App.antt =====
-- internal/app: what the composition root decides itself, beside its wiring of the libraries.
pub mod Reactors
pub mod Telemetry
mod Tests
