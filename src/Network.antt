-- ===== src/Network.antt =====
-- common/network/network.cpp: the part that is the program's own.
pub mod Multiplexer
