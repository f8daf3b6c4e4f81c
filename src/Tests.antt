-- ===== src/Tests.antt =====
-- Concrete servers, runs on them, and the theorems at concrete inputs.
mod Fixture
mod Quota
mod Users
mod Handler
mod Config
mod Sync
mod Ratelimit
mod Relay
mod Connection
mod Transport
mod Start
mod System
mod Program
mod Mux
