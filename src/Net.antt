-- ===== src/Net.antt =====
-- net/: the connections, the table that counts them, and the servers that make them.
pub mod Connection
pub mod Manager
pub mod UdpServer
pub mod TcpServer
