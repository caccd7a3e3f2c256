-- ===== src/Cmd.antt =====
-- cmd/et: the command line, and the run of the client.
pub mod Destination
pub mod Flags
pub mod Run
pub mod Logging
pub mod Resolve
mod Tests
