-- ===== src/Service.antt =====
-- internal/service/challenge.go: the gRPC service.
pub mod Proto
pub mod Lifecycle
pub mod Submit
pub mod Queries
