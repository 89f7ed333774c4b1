-- ===== src/Store.antt =====
-- src/deployment.rs: the durable state store of `DeploymentStateStore`, over an explicit world.
pub mod Names
pub mod World
pub mod Documents
pub mod Files
pub mod Frame
pub mod Writes
pub mod Commands
pub mod Connectors
pub mod Claim
pub mod Transitions
