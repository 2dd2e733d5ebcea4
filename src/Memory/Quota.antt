-- ===== src/Memory/Quota.antt =====
-- What the quota of pkg/fs/memory.go accounts for.
pub mod Weight
pub mod Sound
pub mod Writes
pub mod Moves
pub mod Histories
pub mod Limit
