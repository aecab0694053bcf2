-- ===== src/Crypto.antt =====
-- common/crypto: the cipher of a session.
pub mod Cipher
