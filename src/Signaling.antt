-- ===== src/Signaling.antt =====
-- internal/signaling: the messages, the filter of ICE candidates and session descriptions, and the
-- WebSocket handler.
pub mod Ip
pub mod Origin
pub mod Candidate
pub mod Filter
pub mod Codec
pub mod Handler
pub mod Handles
pub mod Quiet
pub mod Upkeep
pub mod Served
pub mod System
pub mod Relay
mod Tests
