-- ===== src/Examples.antt =====
-- Runs of the theorems on concrete codecs, worlds, conductors and cells.
pub mod Codecs
pub mod Clients
pub mod Waiting
pub mod Sorting
pub mod Conductors
pub mod Apps
pub mod Hosts
pub mod Runs
pub mod Scenarios
pub mod Servers
pub mod Exchanges
pub mod Postfix
pub mod Links
