-- ===== src/Net.antt =====
-- efnfw: the connections, the timers and the thread that serves them.
pub mod Time
pub mod Thread
pub mod Conn
pub mod Read
pub mod MsgQueue
pub mod Message
pub mod Sock
pub mod Life
