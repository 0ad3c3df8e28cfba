-- ===== src/Recover.antt =====
-- src/Recover.cpp: the recovery of indexed directory trees.
pub mod Options
pub mod Reading
pub mod Copying
pub mod Locating
pub mod Tree
pub mod Directories
pub mod Run
mod Tests
