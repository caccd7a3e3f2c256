-- ===== src/Bootstrap.antt =====
-- internal/bootstrap: what the client takes from the output of the remote etterminal.
pub mod Parse
pub mod Command
pub mod Start
pub mod Credentials
mod Tests
