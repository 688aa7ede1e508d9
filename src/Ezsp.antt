-- ===== src/Ezsp.antt =====
-- internal/ezsp: the command protocol on top of the serial link.
pub mod Protocol
pub mod Conn
pub mod Join
pub mod Talk
pub mod Commands
pub mod Scan
pub mod Send
pub mod Network
pub mod Setup
