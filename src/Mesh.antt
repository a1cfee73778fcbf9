-- ===== src/Mesh.antt =====
-- The mesh (src/mesh): the topology that a node keeps of its parent, its children and its peers, the
-- routes of messages and the manager of connections.
pub mod Topology
pub mod Capacity
pub mod Roles
pub mod Routing
pub mod Forwarding
pub mod HopLimit
pub mod Candidates
pub mod Selection
pub mod Events
pub mod Errors
pub mod Manager
pub mod Links
pub mod Linking
pub mod Connecting
pub mod Consistency
pub mod Reachable
pub mod Failover
mod Tests
