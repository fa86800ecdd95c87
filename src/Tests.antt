-- ===== src/Tests.antt =====
-- Concrete contexts, keys and pages, and the theorems at them.
mod Data
mod Failure
mod Guard
mod Keys
mod Parts
mod Reads
mod Registry
mod Store
mod Coordinator
mod Snapshot
