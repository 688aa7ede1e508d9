-- ===== src/Ash.antt =====
-- internal/ash: the framing of the serial link, its scanner and its reliable delivery.
pub mod Crc
pub mod Random
pub mod Error
pub mod Stuff
pub mod Frame
pub mod Scanner
pub mod Conn
