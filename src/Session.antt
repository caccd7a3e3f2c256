-- ===== src/Session.antt =====
-- internal/session: the packets of a session, its keyboard input and its end.
pub mod Escape
pub mod Input
pub mod Router
pub mod Queue
pub mod Terminal
pub mod Start
pub mod Transport
pub mod Run
mod Tests
