-- ===== src/Transport.antt =====
-- The programs on TCP: 08_transport_proto.
pub mod EchoServer
pub mod Client
pub mod UdpServer
pub mod UdpClient
pub mod Addresses
pub mod Ntop
pub mod Resolve
mod Tests
