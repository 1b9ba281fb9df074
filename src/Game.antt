-- ===== src/Game.antt =====
-- The game server of lightnet: game/ of the headers and of the sources.
pub mod Packet
pub mod Wire
pub mod Payload
pub mod Snapshot
pub mod Codec
pub mod Player
pub mod Room
pub mod Send
pub mod Manager
pub mod Dispatch
pub mod Server
