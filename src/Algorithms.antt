-- ===== src/Algorithms.antt =====
-- engine/algorithms: external sorting.
pub mod Runs
pub mod ExternalSort
