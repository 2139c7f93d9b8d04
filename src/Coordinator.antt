-- ===== src/Coordinator.antt =====
-- coordinator.py: the state that the coordinator keeps from tick to tick.
pub mod Requests
pub mod Freshness
pub mod Counter
pub mod Presence
