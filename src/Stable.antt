-- ===== src/Stable.antt =====
-- internal/stable: the worker that merges sources, selects the nodes that answer, and publishes
-- them.
pub mod Label
pub mod Merge
pub mod Arena
pub mod Select
pub mod Publish
pub mod Gate
pub mod Dead
pub mod Best
pub mod Probe
pub mod Cycle
pub mod Tests
