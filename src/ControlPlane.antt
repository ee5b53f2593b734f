-- ===== src/ControlPlane.antt =====
-- The server side of the control plane, cpp/mrc/src/internal/control_plane/server.
pub mod Tagged
pub mod Issuer
pub mod Events
pub mod Versioned
pub mod Role
pub mod Subscriptions
pub mod Connections
pub mod Server
pub mod AsyncClient
pub mod Client
pub mod Instances
