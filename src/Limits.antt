-- ===== src/Limits.antt =====
-- pkg/gash/limits.go: the limits of an execution, the counters that are charged against them, and
-- the output budget that concurrent writers share.
pub mod Profile
pub mod Scope
pub mod Budget
pub mod Granted
pub mod Alone
mod Samples
