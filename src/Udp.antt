-- ===== src/Udp.antt =====
-- UDP links: udp.c.
pub mod Object
pub mod Io
pub mod Tx
pub mod Group
pub mod Api
pub mod References
