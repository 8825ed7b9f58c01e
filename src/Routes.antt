-- ===== src/Routes.antt =====
-- The route table, crates/lagos-core/src/routes/mod.rs and index.rs.
pub mod Host
pub mod Table
pub mod Index
pub mod Build
mod Tests
