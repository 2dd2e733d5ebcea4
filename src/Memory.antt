-- ===== src/Memory.antt =====
-- pkg/fs/memory.go: the in-memory filesystem with its quota.
pub mod Node
pub mod Resolve
pub mod Write
pub mod Names
pub mod Read
pub mod Found
pub mod Total
pub mod Tree
pub mod TreeLookup
pub mod TreeWrites
pub mod TreeOps
pub mod TreeRemove
pub mod Quota
pub mod History
pub mod Panics
mod Samples
pub mod Handles
pub mod ReadWrite
pub mod Shape
pub mod Errors
pub mod RootRename
