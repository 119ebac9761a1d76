-- ===== src/Local.antt =====
-- ts/src/local: conductors on this host, run by `hc sandbox`, and scenarios with them.
pub mod Output
pub mod Conductor
pub mod Lifecycle
pub mod Apps
pub mod Scenario
pub mod Down
pub mod Shutdown
pub mod Cleanup
pub mod Signing
pub mod Soundness
pub mod Overlap
