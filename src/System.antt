-- ===== src/System.antt =====
-- The operating system as the program uses it: a disk, calls that may fail at any point, and the
-- log. A call takes the next entry of `faults`: `none` lets it succeed, `some k` makes it fail after
-- k units of its work (directories made, entries removed, bytes written). An exhausted list lets
-- every later call succeed.
pub mod Disk
pub mod Monad
pub mod Keeps
pub mod Ancestors
pub mod Confined
pub mod Sequel
pub mod Removal
pub mod Reads
pub mod Stored
pub mod Yields
pub mod Moved
pub mod Listed
pub mod Settled
pub mod Quiet
pub mod Leaves
unfoldable pub use Disk.*
unfoldable pub use Monad.*
