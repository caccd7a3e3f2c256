-- ===== src/Console.antt =====
-- internal/console: the local terminal.
pub mod Utf16
pub mod Windows
pub mod Modes
pub mod Resizes
pub mod Unix
pub mod Break
pub mod Opening
mod Tests
