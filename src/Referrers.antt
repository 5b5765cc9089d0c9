-- ===== src/Referrers.antt =====
-- internal/unpacker/referrers.go: the artifacts attached to an image.
pub mod Names
pub mod Fetch
pub mod Numbered
pub mod Subject
pub mod Confined
pub mod Downloaded
pub mod Recorded
pub mod Settled
pub mod Budgeted
pub mod Total
