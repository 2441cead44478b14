-- ===== src/Tests.antt =====
-- The theorems at concrete inputs.
mod Descriptors
mod Messages
mod Cli
mod Processors
mod Text
mod Parser
pub mod Readers
mod Swipes
mod Devices
mod Pages
mod Settings
