-- ===== src/Be.antt =====
-- be: ciphers and containers of the base library.
pub mod Des
pub mod Fifo
pub mod HashMap
