-- ===== src/Utils.antt =====
-- utils.py.
pub mod Coerce
pub mod Mac
pub mod Clients
pub mod Devices
pub mod Addresses
