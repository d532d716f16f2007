-- ===== src/Agent.antt =====
-- The agent that runs on a node (apps/node-agent/src).
pub mod Checks
pub mod CommandType
pub mod Provisioning
pub mod Secrets
pub mod Commands
pub mod Plans
pub mod Steps
pub mod Capabilities
pub mod Conflicts
pub mod Firewall
pub mod Outbound
pub mod Config
pub mod Runner
pub mod Effects
pub mod Rounds
