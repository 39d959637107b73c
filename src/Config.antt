-- ===== src/Config.antt =====
-- internal/config: what is read from the environment, and the ICE servers for clients.
pub mod Env
pub mod Load
pub mod Start
pub mod Sound
pub mod Restart
pub mod Ice
pub mod Tests
