-- ===== src/Fixtures.antt =====
-- The records that a new development client starts from.
pub mod People
pub mod Network
pub mod Catalog
