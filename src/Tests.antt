-- ===== src/Tests.antt =====
-- Runs of the models at concrete inputs, and the theorems at inputs that meet their hypotheses.
mod Answers
mod Buffers
mod Packets
mod Calls
mod Requests
mod Timers
mod Rooms
mod Peers
mod Connections
mod Loops
mod Servers
