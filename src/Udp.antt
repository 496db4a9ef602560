-- ===== src/Udp.antt =====
-- android_app/app/src/main/cpp/udp.c: UDP sessions.
pub mod Write
pub mod Check
pub mod Handle
