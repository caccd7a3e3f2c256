-- ===== src/Etcp.antt =====
-- internal/etcp: the connection that survives reconnects.
pub mod Ring
pub mod Backoff
pub mod Conn
pub mod Reader
pub mod Writer
pub mod Recover
pub mod Dialer
pub mod Supervise
pub mod RunLink
pub mod IdleConn
pub mod Delivery
pub mod Watch
mod Tests
