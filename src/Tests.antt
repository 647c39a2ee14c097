-- ===== src/Tests.antt =====
-- Runs of the model on a small site, and examples of the theorems.
mod Json
mod Site
mod Values
mod Runs
mod Commands
mod Transfers
mod Directories
mod Interleavings
mod Processes
mod Connections
mod Parts
