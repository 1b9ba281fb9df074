-- ===== src/Rpc.antt =====
-- The RPC service of lightnet: rpc/ of the headers and of the sources.
pub mod Codec
pub mod Server
