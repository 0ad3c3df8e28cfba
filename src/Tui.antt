-- ===== src/Tui.antt =====
-- src/Tui.cpp: the terminal interface, without what it draws.
pub mod Json
pub mod Devices
pub mod Views
pub mod State
pub mod Closures
pub mod Machine
pub mod Steps
mod Tests
