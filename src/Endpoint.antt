-- ===== src/Endpoint.antt =====
-- common/endpoint: the command and control server.
pub mod Connections
pub mod Table
pub mod Login
pub mod Router
pub mod IpQuery
pub mod Routes
pub mod Relay
pub mod Forward
pub mod Client
mod Tests
mod ClientTests
