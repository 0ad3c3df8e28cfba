-- ===== src/Output.antt =====
-- src/RecoveryOutput.cpp: names, collisions and files of the recovery output.
pub mod Sanitize
pub mod Collisions
pub mod Posix
pub mod Disk
pub mod Result
pub mod AtomicFile
mod Tests
