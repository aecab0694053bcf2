-- ===== src/Utils.antt =====
-- common/utils: what is not a buffer.
pub mod Callback
pub mod Event
pub mod Hex
pub mod Math
