-- ===== src/Master.antt =====
-- The master control's side: src/controller/master-controller.ts.
pub mod Controller
pub mod Queries
pub mod Caches
pub mod Edges
pub mod Stitching
pub mod Orders
pub mod Instants
pub mod Dispatch
pub mod Consistent
mod Examples
