-- ===== src/Examples.antt =====
pub mod Tags
pub mod Roles
pub mod Connections
pub mod Services
pub mod Data
pub mod Runners
pub mod Servers
pub mod Registries
pub mod Bitmaps
pub mod Engines
pub mod Clients
pub mod Topology
pub mod Codables
pub mod Pools
pub mod Segments
