-- ===== src/Tests.antt =====
-- Concrete runs, and the theorems at concrete inputs.
mod Sample
mod SampleRedis
mod Texts
mod Protocol
mod Registry
mod Redis
mod Startup
mod Server
mod Service
mod Cleanup
