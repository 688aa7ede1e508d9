-- ===== src/Zigbee.antt =====
-- zigbee: the package that a program uses, on top of the adapter and of the registry.
pub mod Query
pub mod Description
pub mod Interview
pub mod Command
pub mod Attributes
pub mod Devices
pub mod Color
pub mod Light
