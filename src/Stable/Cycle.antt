-- ===== src/Stable/Cycle.antt =====
-- internal/stable/checker.go: one check cycle, from the fetch of the sources to the publication of
-- the list, and the worker that runs the cycles.
pub mod Sources
pub mod Death
pub mod Accounts
pub mod Egress
pub mod State
pub mod Once
pub mod System
pub mod Tests
