-- ===== src/Tcp.antt =====
-- android_app/app/src/main/cpp/tcp.c, in parts.
pub mod Write
pub mod Queue
pub mod Window
pub mod Invariant
pub mod Check
pub mod Socket
pub mod Header
pub mod Open
pub mod Handle
pub mod Stream
pub mod Machine
