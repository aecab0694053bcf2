-- ===== src/Transport.antt =====
-- common/transport: the layers that carry ordered packets.
pub mod Link
pub mod Session
pub mod Tcp
pub mod Udp
pub mod Pipes
