-- ===== src/Http.antt =====
-- The HTTP service of lightnet: http/ of the headers and of the sources.
pub mod Text
pub mod Message
pub mod Parser
pub mod Server
