-- ===== src/Zcl.antt =====
-- internal/zcl: the application layer. Its reader is `Cursor`.
pub mod Value
pub mod Frame
pub mod Reporting
pub mod Attributes
