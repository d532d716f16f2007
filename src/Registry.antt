-- ===== src/Registry.antt =====
-- The registry of protocols (packages/protocol-registry/src).
pub mod Ports
pub mod Adapters
