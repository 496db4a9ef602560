-- ===== src/Tests.antt =====
-- The theorems at concrete inputs: one packet, session and environment after the other, for which
-- the hypotheses hold.
pub mod Data
pub mod Util
pub mod Tcp
pub mod Session
pub mod Open
pub mod Loop
pub mod Life
pub mod Parsers
pub mod Ip
pub mod Connect
pub mod Stream
pub mod Service
