-- ===== src/Text.antt =====
-- Text commands of internal/commands/text that work on the lines of their input.
pub mod Uniq
pub mod Grouping
pub mod Comm
mod Samples
