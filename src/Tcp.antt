-- ===== src/Tcp.antt =====
-- tcp.c
pub mod Recv
pub mod Send
pub mod Object
pub mod Accept
pub mod Io
pub mod Write
pub mod Api
pub mod Delivery
pub mod References
