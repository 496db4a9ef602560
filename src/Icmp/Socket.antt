-- ===== src/Icmp/Socket.antt =====
-- android_app/app/src/main/cpp/icmp.c: `check_icmp_socket`, which runs when the socket is ready.
use tun2http.Prelude.{ℕ, true, List, [], ◌∷◌, ◌==◌, if◌then◌else◌, length}
use tun2http.Os.{Os, Call, Events, Received}
use tun2http.Session.{IcmpSession, IcmpNode}
use tun2http.Icmp.Write.{readdress, reply_pseudo, write_icmp}

-- ICMP4_MAXMSG and ICMP6_MAXMSG.
abbrev pub icmp_maxmsg : ℕ → ℕ
icmp_maxmsg version = if version == 4 then 65507 else 65487

abbrev pub set_icmp : IcmpNode → IcmpSession → IcmpNode
set_icmp s cur = record s { icmp = cur }

abbrev pub stopped : IcmpNode → IcmpNode
stopped s = set_icmp s (record (s.icmp) { stop = true })

-- The reply with the session's identifier in place of the socket's.
abbrev icmp_reply : IcmpSession → List ℕ → List ℕ
icmp_reply cur bytes = readdress (reply_pseudo cur (length bytes)) bytes cur.id

module _ (os : Os) where
  -- The reply goes to the tun device.
  unfoldable pub icmp_answer : IcmpNode → List ℕ → List Call → IcmpNode × List Call
  icmp_answer s bytes log =
      let (ok, log') = write_icmp os s.icmp (icmp_reply s.icmp bytes) log in
      (if ok then s else stopped s, log')

  abbrev pub icmp_received : IcmpNode → Received → List Call → IcmpNode × List Call
  icmp_received s (Received.failed retry) log = (if retry then s else stopped s, log)
  icmp_received s (Received.bytes []) log = (stopped s, log)
  icmp_received s (Received.bytes (b ∷ bytes)) log = icmp_answer s (b ∷ bytes) log

  unfoldable pub check_icmp_socket : IcmpNode → Events → List Call → IcmpNode × List Call
  check_icmp_socket s ev log =
      let s' = set_icmp s (record (s.icmp) { time = os.time log }) in
      let log' = Call.time ∷ log in
      let size = icmp_maxmsg s.version in
      if ev.epollerr
      then (stopped s', log')
      else if ev.epollin
      then icmp_received s' (os.recv log' s.socket size) (Call.recv s.socket size ∷ log')
      else (s, log)
