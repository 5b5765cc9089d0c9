-- ===== src/Pull.antt =====
-- internal/unpacker/pull.go: getting an artifact from its registry.
pub mod Blob
pub mod Budget
pub mod Credentials
pub mod Relabel
pub mod Registry
pub mod Oras
pub mod Crane
pub mod Confined
pub mod Total
pub mod Settled
pub mod Bounded
pub mod Served
pub mod Answered
