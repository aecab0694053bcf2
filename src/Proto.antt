-- ===== src/Proto.antt =====
-- common/transport/kex.h, kex_v1.h and kex_v1.cpp: the key exchange.
pub mod Keys
pub mod Users
pub mod Sample
pub mod Kex
