-- ===== src/Examples.antt =====
-- Concrete settings, and the properties at concrete inputs.
pub mod Setting
pub mod Calls
pub mod Ticks
pub mod Payload
pub mod Uplink
pub mod Counters
pub mod Domains
pub mod Lists
