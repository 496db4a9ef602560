-- ===== src/Icmp.antt =====
-- android_app/app/src/main/cpp/icmp.c: the timeout and the periodic check of an ICMP session, and in
-- the children the rest of the file.
pub mod Write
pub mod Socket
pub mod Handle
use tun2http.Prelude.{
  ℕ, Bool, true, false, ◌||◌, none, List, ◌∷◌, if◌then◌else◌, ℤ, pos, ◌+ℤ◌, ltb_ℤ, scale_ℤ,
}
use tun2http.Os.{Os, Call}
use tun2http.Session.{IcmpSession, IcmpNode}
use tun2http.Tcp.Window.{sessions_scale}

abbrev icmp_timeout : ℕ
icmp_timeout = 15

unfoldable pub get_icmp_timeout : IcmpSession → ℕ → ℕ → ℤ
get_icmp_timeout u sessions maxsessions =
    scale_ℤ icmp_timeout (sessions_scale sessions maxsessions) 100

-- A session that was stopped, or silent for longer than its timeout, closes its socket and is to be
-- deleted.
unfoldable pub check_icmp_session : Os → IcmpNode → ℕ → ℕ → List Call → Bool × IcmpNode × List Call
unfolding ◌+ℤ◌
check_icmp_session os s sessions maxsessions log =
    let timeout = get_icmp_timeout s.icmp sessions maxsessions in
    if s.stop || ltb_ℤ (pos s.time +ℤ timeout) (pos (os.time log))
    then (true, record s { socket = none }, Call.close s.socket ∷ (Call.time ∷ log))
    else (false, s, Call.time ∷ log)
