-- ===== src/Tests.antt =====
-- Runs of the models at concrete inputs, and the theorems at inputs that meet their hypotheses.
mod Buffers
mod Allocators
mod Partitions
mod Curves
mod Rmids
mod Sorting
mod Apps
mod Phases
mod Monitors
mod Counts
mod Averages
mod Histories
mod Fields
