-- ===== src/Verify.antt =====
-- internal/unpacker/verify.go: the verification that gates the unpacking.
pub mod Config
pub mod Trust
pub mod Timestamp
pub mod Bundles
pub mod Accepted
pub mod Quiet
pub mod Trusted
pub mod Sound
pub mod Record
pub mod Decides
