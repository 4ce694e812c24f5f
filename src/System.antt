-- ===== src/System.antt =====
-- The whole service.
pub mod Safety
pub mod Documents
pub mod Boards
pub mod Invariant
pub mod Steps
pub mod Submissions
pub mod Queries
pub mod Joining
pub mod Handlers
pub mod Connections
pub mod Spec
pub mod Writes
pub mod Moves
pub mod Endings
pub mod Conclusions
pub mod Abandonment
pub mod Creation
pub mod Requests
pub mod Refinement
pub mod Promises
pub mod Loop
