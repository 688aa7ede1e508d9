-- ===== src/Examples.antt =====
-- The theorems at concrete inputs.
pub mod Ash
pub mod Link
pub mod Ezsp
pub mod Zdo
pub mod Zcl
pub mod Store
pub mod Reporting
pub mod Scan
pub mod Network
pub mod Send
pub mod Setup
pub mod Interview
pub mod Attributes
pub mod Command
mod Letters
mod Prompt
mod Names
mod Lights
