-- ===== src/Tests.antt =====
-- A concrete environment, runs of the code in it, and the theorems at concrete data.
mod Memory
mod Runs
mod Parts
mod Objects
mod Bridges
mod Signal
mod Isolated
mod Whole
mod Confined
mod Process
