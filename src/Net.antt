-- ===== src/Net.antt =====
-- The network stack: src/net.
pub mod Stack
pub mod Tcp
pub mod Dns
pub mod Host
