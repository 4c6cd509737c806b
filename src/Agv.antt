-- ===== src/Agv.antt =====
-- The AGV controller: src/controller/agv-controller.ts.
pub mod Constraints
pub mod Controller
pub mod Updates
pub mod ErrorType
pub mod Faults
pub mod Queries
pub mod Chunk
pub mod Traversal
pub mod Status
pub mod InstantActions
pub mod Orders
pub mod Callbacks
pub mod Steps
pub mod Examples
