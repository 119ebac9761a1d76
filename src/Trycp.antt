-- ===== src/Trycp.antt =====
-- The remote side: the TryCP protocol, its client, and what is built on the client (ts/src/trycp).
pub mod Protocol
pub mod Codec
pub mod Client
pub mod Services
pub mod Conductor
pub mod Scenario
pub mod Server
pub mod Linked
