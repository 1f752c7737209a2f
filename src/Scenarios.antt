-- ===== src/Scenarios.antt =====
-- Jobs and stores to try the program on, runs of it, and the theorems at concrete inputs.
mod Samples
mod Consistent
mod Claims
mod Handlers
mod Monitors
mod Whole
mod Fleet
mod Workers
mod Transfers
mod Paths
mod Scans
mod Settings
