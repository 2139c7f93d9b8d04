-- ===== src/Transport.antt =====
-- api/transport.py, api/auth.py and api/errors.py: the authenticated HTTP calls of the client. aiohttp is
-- the script `answer`: what each request gets, given the requests sent before it.
pub mod Http
pub mod Auth
pub mod Calls
pub mod Batch
pub mod Commands
pub mod Header
pub mod Outage
pub mod Session
pub mod Counting
pub mod Latch
pub mod Sending
pub mod Target
