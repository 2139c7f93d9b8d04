-- ===== src/Parsers.antt =====
-- api/parsers and the payload helpers of api/helpers.py.
pub mod Wan
pub mod Ipsec
pub mod Helpers
pub mod Log
pub mod Messages
