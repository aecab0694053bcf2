-- ===== src/Config.antt =====
-- Settings and users in JSON: common/config and common/identity.
pub mod Json
mod Object
pub mod Users
pub mod Profile
mod Thrown
mod RoundTrip
mod Reload
mod Tests
